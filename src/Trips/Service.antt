-- ===== src/Trips/Service.antt =====
-- ride-service/internal/trips/service.go: the operations of `Service`, as functions of the state
-- that they share. What a spawned goroutine will do is a `Job` of that state.
use uber.Base.{
  ℕ, zero, suc, String, Float, Time, pos, Go, Option, none, some, List, [], ◌∷◌, Result, ok, err,
  if◌then◌else◌,
}
use uber.Events.{RideRequestedEvent, TripCompletedEvent, Json}
use uber.Kafka.{Log, Broker, Handler, publish, topic_ride_requested, topic_trip_completed}
use uber.Trips.Model.{
  requested, matching, driver_assigned, started, completed, status_eq, Trip, TripRequest,
}
use uber.Trips.Store.{Postgres, Db, NewTrip, Update}

pub data Job : Type 0 where
  publish_requested : RideRequestedEvent → Job
  publish_completed : TripCompletedEvent → Job

-- The database, the brokers' messages, and the goroutines that have not run yet.
pub record World : Type 0 where
  pub db : Db
  pub log : Log
  pub jobs : List Job

-- What the service is built from: `NewService` and the standard library.
pub record Deps : Type 0 where
  pub go : Go
  pub pg : Postgres
  pub broker : Broker
  pub json : Json

-- The statement of `AssignDriver` and of the driver.assigned consumer.
unfoldable pub assign_update : (trip_id driver_id : String) → Update
assign_update trip_id driver_id = record {
  set_status = driver_assigned;
  set_driver_id = some driver_id;
  set_fare = none;
  set_started_at = none;
  set_completed_at = none;
  where_id = trip_id;
  where_status = some (requested ∷ matching ∷ []);
}

unfoldable pub start_update : (trip_id : String) (now : Time) → Update
start_update trip_id now = record {
  set_status = started;
  set_driver_id = none;
  set_fare = none;
  set_started_at = some now;
  set_completed_at = none;
  where_id = trip_id;
  where_status = some (driver_assigned ∷ []);
}

unfoldable pub complete_update : (trip_id : String) (fare : Float) (now : Time) → Update
complete_update trip_id fare now = record {
  set_status = completed;
  set_driver_id = none;
  set_fare = some fare;
  set_started_at = none;
  set_completed_at = some now;
  where_id = trip_id;
  where_status = none;
}

-- The values of the INSERT of `Request`.
unfoldable pub new_trip : (id : String) (now : Time) (rider_id : String) → TripRequest → NewTrip
new_trip id now rider_id req = record {
  id = id;
  rider_id = rider_id;
  pickup_lat = req.pickup_lat;
  pickup_lng = req.pickup_lng;
  drop_lat = req.drop_lat;
  drop_lng = req.drop_lng;
  status = requested;
  requested_at = now;
}

module _ (d : Deps) where
  open d use {go, pg, broker, json}

  unfoldable pub get_by_id : String → Db → Result Trip
  get_by_id id db = elim (pg.query_row id db) [ ok t ↦ ok t | err e ↦ err "trip not found" ]

  unfoldable pub request :
      (id : String) (now : Time) (rider_id : String) → TripRequest → World → World × Result Trip
  request id now rider_id req w =
      let (db', tag) = pg.exec_insert (new_trip id now rider_id req) w.db in
      elim tag [
        | err e ↦ (record w { db = db' }, err e)
        | ok n ↦ (
          record w {
            db = db';
            jobs =
                publish_requested (record {
                  trip_id = id;
                  rider_id = rider_id;
                  pickup = record { lat = req.pickup_lat; lng = req.pickup_lng };
                  drop = record { lat = req.drop_lat; lng = req.drop_lng };
                  requested_at = go.rfc3339 now;
                })
                ∷ w.jobs;
          },
          ok (record {
            id = id;
            rider_id = rider_id;
            driver_id = none;
            pickup_lat = req.pickup_lat;
            pickup_lng = req.pickup_lng;
            drop_lat = req.drop_lat;
            drop_lng = req.drop_lng;
            fare = none;
            status = requested;
            requested_at = some now;
            started_at = none;
            completed_at = none;
            created_at = now;
          }),
        )
      ]

  -- What follows the statement in `AssignDriver` and `Start`: an error, no row, or a fresh read.
  unfoldable pub after_update :
      (none_matched trip_id : String) → World → Db × Result ℕ → World × Result Trip
  after_update none_matched trip_id w (db', err e) = (record w { db = db' }, err e)
  after_update none_matched trip_id w (db', ok zero) = (record w { db = db' }, err none_matched)
  after_update none_matched trip_id w (db', ok (suc n)) =
      (record w { db = db' }, get_by_id trip_id db')

  unfoldable pub assign_driver : (trip_id driver_id : String) → World → World × Result Trip
  unfolding after_update
  assign_driver trip_id driver_id w =
      after_update "trip not found or invalid state for assignment" trip_id w
        (pg.exec_update (assign_update trip_id driver_id) w.db)

  unfoldable pub start : (trip_id : String) (now : Time) → World → World × Result Trip
  unfolding after_update
  start trip_id now w =
      after_update "trip not found or not in DRIVER_ASSIGNED state" trip_id w
        (pg.exec_update (start_update trip_id now) w.db)

  -- The great-circle distance.
  unfoldable pub haversine_km : (lat1 lng1 lat2 lng2 : Float) → Float
  haversine_km lat1 lng1 lat2 lng2 =
      let rad = λ (x : Float). go.div (go.mul x go.pi) (go.of_nat 180) in
      let d_lat = rad (go.sub lat2 lat1) in
      let d_lng = rad (go.sub lng2 lng1) in
      let half = λ (x : Float). go.sin (go.div x (go.of_nat 2)) in
      let a = go.add (go.mul (half d_lat) (half d_lat)) (
        go.mul (go.mul (go.mul (go.cos (rad lat1)) (go.cos (rad lat2))) (half d_lng))
          (half d_lng)) in
      go.mul (go.mul (go.of_nat 6371) (go.of_nat 2))
        (go.atan2 (go.sqrt a) (go.sqrt (go.sub (go.of_nat 1) a)))

  -- A distance that the client gives counts if it is above 0.
  unfoldable pub distance_km : Option Float → Trip → Float
  unfolding haversine_km
  distance_km none t = haversine_km t.pickup_lat t.pickup_lng t.drop_lat t.drop_lng
  distance_km (some km) t =
      if go.lt (go.of_nat 0) km
      then km
      else haversine_km t.pickup_lat t.pickup_lng t.drop_lat t.drop_lng

  unfoldable pub fare_of : Float → Float
  fare_of km = go.add (go.of_nat 50) (go.mul km (go.of_nat 12))

  unfoldable pub completed_event :
      Trip → (trip_id : String) (fare : Float) (now : Time) → TripCompletedEvent
  completed_event t trip_id fare now = record {
    trip_id = trip_id;
    driver_id = elim t.driver_id [ none ↦ "" | some id ↦ id ];
    rider_id = t.rider_id;
    fare = fare;
    completed_at = go.rfc3339 now;
    duration_seconds = elim t.started_at [ none ↦ pos 0 | some at ↦ go.whole_seconds now at ];
  }

  -- The first half of `End`: the trip is read and its status tested.
  unfoldable pub end_check : (trip_id : String) → Db → Result Trip
  unfolding get_by_id
  end_check trip_id db = elim (get_by_id trip_id db) [
    | err e ↦ err e
    | ok t ↦ if status_eq t.status started then ok t else err "trip not in STARTED state"
  ]

  -- The second half, for the trip that was read: the fare, the statement, the goroutine.
  unfoldable pub end_commit :
      (trip_id : String) → Option Float → (now : Time) → Trip → World → World × Result Trip
  unfolding distance_km fare_of completed_event
  end_commit trip_id dist now t w =
      let fare = fare_of (distance_km dist t) in
      let (db', tag) = pg.exec_update (complete_update trip_id fare now) w.db in
      elim tag [
        | err e ↦ (record w { db = db' }, err e)
        | ok n ↦ (
          record w {
            db = db';
            jobs = publish_completed (completed_event t trip_id fare now) ∷ w.jobs;
          },
          get_by_id trip_id db',
        )
      ]

  unfoldable pub end :
      (trip_id : String) → Option Float → (now : Time) → World → World × Result Trip
  unfolding end_check end_commit
  end trip_id dist now w = elim (end_check trip_id w.db) [
    | err e ↦ (w, err e)
    | ok t ↦ end_commit trip_id dist now t w
  ]

  -- The handler of `StartDriverAssignedConsumer`.
  unfoldable pub on_driver_assigned : Handler World
  on_driver_assigned bytes w = elim (json.unmarshal_assigned bytes) [
    | err e ↦ (w, some e)
    | ok ev ↦
        let (db', tag) = pg.exec_update (assign_update ev.trip_id ev.driver_id) w.db in
        (record w { db = db' }, elim tag [ err e ↦ some e | ok n ↦ none ])
  ]

  -- A goroutine of `Request` or `End`. An error of `Publish` is logged.
  unfoldable pub run_job : Job → World → World
  run_job (publish_requested ev) w = record w {
    log = (publish broker topic_ride_requested ev.trip_id (json.marshal_requested ev) w.log).0;
  }
  run_job (publish_completed ev) w = record w {
    log = (publish broker topic_trip_completed ev.trip_id (json.marshal_completed ev) w.log).0;
  }
