-- ===== src/Matching/Flow.antt =====
-- From a requested ride to an assigned driver: `Request`'s goroutine, the matcher, and the
-- driver.assigned consumer of the trips service.
use uber.Base.{ℕ, suc, String, none, some, true, List, ◌++◌, ◌≡◌, arith, ok, ap}
use uber.Events.{Bytes, IsJson, RideRequestedEvent, DriverAssignedEvent}
use uber.Kafka.{IsBroker, replicate, topic_driver_assigned}
use uber.Redis.{IsRedis, Location, IsMember}
use uber.Matching.Dispatch
use uber.Matching.Dispatch.{on_ride_requested}
use uber.Matching.Choice.{query, nobody, picked, on_ride_requested_ok}
use uber.Trips.Model.{Trip, driver_assigned}
use uber.Trips.Store.{IsPostgres, find, selects, assign_columns, update_row}
use uber.Trips.Rows.{find-update_rows, find_same}
use uber.Trips.Lifecycle.{IsOpen}
use uber.Trips.Service
use uber.Trips.Service.{assign_update, on_driver_assigned}

module _ (t : Service.Deps) (laws : IsPostgres t.pg) where
  consumed_inv :
      (value : Bytes) (ev : DriverAssignedEvent) (w : Service.World)
      → t.json.unmarshal_assigned value ≡ ok ev
      → (on_driver_assigned t value w).1 ≡ none
      → let sent = t.pg.exec_update (assign_update ev.trip_id ev.driver_id) w.db in
        (k : ℕ) × (sent.1 ≡ ok k) × ((on_driver_assigned t value w).0.db ≡ sent.0)
  unfolding on_driver_assigned
  consumed_inv value ev w read e = ground arith

  assigned_row :
      (trip driver : String) (ts : List Trip) (r : Trip)
      → find t.pg trip ts ≡ some r
      → IsOpen r.status
      → update_row t.pg (assign_update trip driver) r
        ≡ record r { driver_id = some (t.pg.uuid driver); status = driver_assigned }
  unfolding update_row selects assign_columns assign_update
  assigned_row trip driver ts r found opened = ground (arith, find_same t.pg trip ts r)

  -- The consumer of an event whose statement succeeds: an open trip has the driver.
  consumed :
      (value : Bytes) (ev : DriverAssignedEvent) (w : Service.World) (r : Trip)
      → t.json.unmarshal_assigned value ≡ ok ev
      → find t.pg ev.trip_id w.db.trips ≡ some r
      → IsOpen r.status
      → (on_driver_assigned t value w).1 ≡ none
      → find t.pg ev.trip_id (on_driver_assigned t value w).0.db.trips
        ≡ some (record r { driver_id = some (t.pg.uuid ev.driver_id); status = driver_assigned })
  consumed value ev w r read found opened e =
      let u = assign_update ev.trip_id ev.driver_id in
      let (k, tag, after) = consumed_inv value ev w read e in
      let (done, _) = laws.update_ok u w.db k tag in
      rw (after, done, find-update_rows t.pg u ev.trip_id w.db.trips, found)
        (ap some (assigned_row ev.trip_id ev.driver_id w.db.trips r found opened))

-- From a message of ride.requested to an assigned trip, with the broker, Redis, PostgreSQL and the
-- JSON round trip as documented. Where the message is a marshalled event, some driver is within 5
-- km, the matcher's round returns no error, the trip is still open, and the consumer's round on the
-- message that the matcher wrote returns no error, the trip is DRIVER_ASSIGNED to a driver of the
-- set, whom that message names, with his id as a UUID column gives it back.
pub requested_trip_assigned :
    (m : Dispatch.Deps) (t : Service.Deps)
    → m.json ≡ t.json
    → IsBroker m.broker
    → IsRedis m.redis
    → IsPostgres t.pg
    → IsJson t.json
    → (ev : RideRequestedEvent) (bytes : Bytes) (y : Location) (w w' : Dispatch.World)
    → t.json.marshal_requested ev ≡ ok bytes
    → IsMember y w.geo.members
    → m.redis.within (query m ev) y ≡ true
    → on_ride_requested m bytes w ≡ (w', none)
    → (x : Location) × (value : Bytes) × (n : ℕ) × IsMember x w.geo.members
      × (m.json.marshal_assigned (record { trip_id = ev.trip_id; driver_id = x.name }) ≡ ok value)
      × (w'.log
          ≡ w.log
            ++ replicate
                (suc n)
                (record { topic = topic_driver_assigned; key = ev.trip_id; value = value }))
      × ((v : Service.World) (r : Trip)
          → find t.pg ev.trip_id v.db.trips ≡ some r
          → IsOpen r.status
          → (on_driver_assigned t value v).1 ≡ none
          → find t.pg ev.trip_id (on_driver_assigned t value v).0.db.trips
            ≡ some (record r { driver_id = some (t.pg.uuid x.name); status = driver_assigned }))
requested_trip_assigned m t same broker redis pg json ev bytes y w w' sent member near round =
    elim (on_ride_requested_ok m broker redis bytes ev w w'
      (rw same (json.requested_round_trip ev bytes sent)) round) [
        | nobody far e ↦ absurd (ground (arith, far y member, near))
        | picked x value n at nearest marshalled stored gone ↦ (
          x,
          value,
          n,
          at,
          marshalled,
          stored,
          λ v r found opened done.
              consumed t pg value (record { trip_id = ev.trip_id; driver_id = x.name }) v r
                (json.assigned_round_trip _ value (rw (← same) marshalled)) found opened done,
        )
      ]
