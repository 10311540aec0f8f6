-- ===== src/Server/Booking.antt =====
-- From the goroutine of a requested trip to its driver, as a run of the program: the message that
-- it writes, the matcher's round on it, and the consumer's on the answer.
use uber.Base.{String, Option, none, some, true, List, ◌∷◌, ◌++◌, ◌≡◌, refl, ap, ok}
use uber.Events.{Bytes, IsJson, RideRequestedEvent}
use uber.Kafka.{IsBroker, Message, publish, replicate, topic_ride_requested, topic_driver_assigned}
use uber.Kafka.Delivery.{publish_stored}
use uber.Redis.{IsRedis, Location, IsMember}
use uber.Matching.Dispatch
use uber.Matching.Dispatch.{on_ride_requested}
use uber.Matching.Choice.{query}
use uber.Matching.Flow.{requested_trip_assigned}
use uber.Trips.Model.{Trip, driver_assigned}
use uber.Trips.Store.{IsPostgres, find}
use uber.Trips.Lifecycle.{IsOpen}
use uber.Trips.Service.{Job, publish_requested, run_job, on_driver_assigned}
use uber.Trips.System.{rows}
use uber.Server.Model.{ServerDeps, trip_deps}
use uber.Server.Process.{Process, Step, Run, here, next, system, matcher_deps, matched, with_trips}

abbrev pub requested_message : RideRequestedEvent → Bytes → Message
requested_message ev bytes = record {
  topic = topic_ride_requested;
  key = ev.trip_id;
  value = bytes;
}

abbrev pub assigned_message : String → Bytes → Message
assigned_message trip value = record { topic = topic_driver_assigned; key = trip; value = value }

-- What the matcher sees of the program.
abbrev pub seen : Process → Dispatch.World
seen p = record { geo = p.server.drivers.geo; log = p.server.trips.log }

module _ (d : ServerDeps) where
  -- The three states on the way.
  abbrev pub announced : RideRequestedEvent → (others : List Job) → Process → Process
  announced ev others p =
      with_trips p.ends
        (run_job (trip_deps d) (publish_requested ev) (record p.server.trips { jobs = others })) p

  abbrev pub consumed : Bytes → Process → Process
  consumed value p = with_trips p.ends (on_driver_assigned (trip_deps d) value p.server.trips).0 p

  -- None of the calls on the way returns an error.
  pub record AllAnswer (ev : RideRequestedEvent) (p1 : Process) : Type 0 where
    pub matching :
        (bytes : Bytes)
        → d.json.marshal_requested ev ≡ ok bytes
        → (on_ride_requested (matcher_deps d) bytes (seen p1)).1 ≡ none
    pub assignment :
        (bytes value : Bytes) (driver : String)
        → d.json.marshal_requested ev ≡ ok bytes
        → d.json.marshal_assigned (record { trip_id = ev.trip_id; driver_id = driver }) ≡ ok value
        → (on_driver_assigned
            (trip_deps d)
            value
            (matched d (requested_message ev bytes) p1).server.trips).1
          ≡ none

  module _ (pg : IsPostgres d.pg) (broker : IsBroker d.broker) (redis : IsRedis d.redis)
      (json : IsJson d.json) where
    -- The run from the waiting goroutine on.
    pub booked-Run :
        (p : Process) (before : List Job) (ev : RideRequestedEvent) (after : List Job) (r : Trip)
        (y : Location)
        → p.server.trips.jobs ≡ before ++ (publish_requested ev ∷ after)
        → find d.pg ev.trip_id (rows (system p)) ≡ some r
        → IsOpen r.status
        → IsMember y p.server.drivers.geo.members
        → d.redis.within (query (matcher_deps d) ev) y ≡ true
        → (publish d.broker topic_ride_requested ev.trip_id
            (d.json.marshal_requested ev)
            p.server.trips.log).1
          ≡ none
        → AllAnswer ev (announced ev (before ++ after) p)
        → (p' : Process) × Run d p p'
          × (x : Location) × IsMember x p.server.drivers.geo.members
          × (find d.pg ev.trip_id (rows (system p'))
              ≡ some (record r { driver_id = some (d.pg.uuid x.name); status = driver_assigned }))
    unfolding run_job
    booked-Run p before ev after r y split found opened member near sent answers =
        let (bytes, n, marshalled, log1) =
          publish_stored d.broker broker topic_ride_requested ev.trip_id
            (d.json.marshal_requested ev) p.server.trips.log sent in
        let p1 = announced ev (before ++ after) p in
        let m = requested_message ev bytes in
        let p2 = matched d m p1 in
        let w2 = (on_ride_requested (matcher_deps d) bytes (seen p1)).0 in
        let (x, value, k, at, named, log2, books) =
          requested_trip_assigned (matcher_deps d) (trip_deps d) refl broker redis pg json ev bytes
            y (seen p1) w2 marshalled member near
            (ap (λ (e : Option String). (w2, e)) (answers.matching bytes marshalled)) in
        (
          consumed value p2,
          next
              (next (next here (Step.goroutine before (publish_requested ev) after split refl))
                (Step.matches p.server.trips.log m (replicate n m) log1 refl refl))
              (Step.assigns p1.server.trips.log (assigned_message ev.trip_id value)
                (replicate k (assigned_message ev.trip_id value)) log2 refl refl),
          x,
          at,
          books p2.server.trips r found opened
              (answers.assignment bytes value x.name marshalled named),
        )
