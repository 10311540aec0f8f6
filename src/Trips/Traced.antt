-- ===== src/Trips/Traced.antt =====
-- What stands behind the events of the service: the rows of the trips that they are about.
use uber.Base.{
  String, Option, none, some, List, [], ◌∷◌, ◌≡◌, arith, All, All-map, ok, Bool-cases, inl, inr,
}
use uber.Events.{Json, RideRequestedEvent, DriverAssignedEvent, TripCompletedEvent}
use uber.Kafka.{Message, Log, topic_ride_requested, topic_driver_assigned, topic_trip_completed}
use uber.Trips.Model.{Trip, started, completed}
use uber.Trips.Store.{Postgres, find}
use uber.Trips.Lifecycle.{Move, Later, Move-Later, Later-trans, Evolves}
use uber.Trips.Service.{Job, publish_requested, publish_completed}
use uber.Trips.System.{EndRun, System, rows}

-- An id as the events have it: "" for no driver.
abbrev pub text_of : Option String → String
text_of none = ""
text_of (some id) = id

-- The row was requested as the event says.
abbrev pub IsRequestOf : RideRequestedEvent → Trip → Type 0
IsRequestOf ev r =
    (r.rider_id ≡ ev.rider_id)
    × (r.pickup_lat ≡ ev.pickup.lat)
    × (r.pickup_lng ≡ ev.pickup.lng)
    × (r.drop_lat ≡ ev.drop.lat)
    × (r.drop_lng ≡ ev.drop.lng)

-- The row is completed, with the rider and the driver of the event.
abbrev pub IsEndOf : TripCompletedEvent → Trip → Type 0
IsEndOf ev r =
    (r.status ≡ completed) × (r.rider_id ≡ ev.rider_id) × (text_of r.driver_id ≡ ev.driver_id)

abbrev pub IsAny : Trip → Type 0
IsAny r = Unit

-- What no move of a row ends.
abbrev pub Stays : (Trip → Type 0) → Type 0
Stays P = (t t' : Trip) → Move t t' → P t → P t'

Stays-IsRequestOf : (ev : RideRequestedEvent) → Stays (IsRequestOf ev)
Stays-IsRequestOf ev t t' m p = ground (arith, Move-Later m)

Stays-IsEndOf : (ev : TripCompletedEvent) → Stays (IsEndOf ev)
Stays-IsEndOf ev t t' (Move.keep e) p = ground arith
Stays-IsEndOf ev t t' (Move.assign driver o e) p = ground arith
Stays-IsEndOf ev t t' (Move.begin at s e) p = ground arith
Stays-IsEndOf ev t t' (Move.complete fare at s e) p = ground arith

Stays-Later : (x : Trip) → Stays (Later x)
Stays-Later x t t' m p = Later-trans p (Move-Later m)

module _ (pg : Postgres) where
  -- The row of an id, and what holds of it.
  abbrev pub Found : (Trip → Type 0) → String → List Trip → Type 0
  Found P id ts = (r : Trip) × (find pg id ts ≡ some r) × P r

  pub Found-Evolves :
      (P : Trip → Type 0)
      → Stays P
      → (id : String) (ts us : List Trip) → Evolves ts us
      → Found P id ts
      → Found P id us
  unfolding find
  Found-Evolves P stays id [] us e (r, found, p) = absurd (ground arith)
  Found-Evolves P stays id (t ∷ ts) [] e f = absurd e
  Found-Evolves P stays id (t ∷ ts) (u ∷ us) e (r, found, p) =
      elim (Bool-cases (pg.same_uuid id t.id)) [
        | inl same ↦ (
          u,
          ground (arith, same, Move-Later e.0),
          stays t u e.0 (let here : r ≡ t = ground (arith, same) in rw here at p),
        )
        | inr other ↦
            let (r', found', p') =
              Found-Evolves P stays id ts us e.1 (r, ground (arith, other), p) in
            (r', ground (arith, other, Move-Later e.0), p')
      ]

-- A goroutine that has not run yet: the trip of its event.
abbrev pub JobTraced : Postgres → List Trip → Job → Type 0
JobTraced pg ts (publish_requested ev) = Found pg (IsRequestOf ev) ev.trip_id ts
JobTraced pg ts (publish_completed ev) = Found pg (IsEndOf ev) ev.trip_id ts

-- An `End` between its halves: the row as it has become since it was read.
abbrev pub EndTraced : Postgres → List Trip → EndRun → Type 0
EndTraced pg ts e = (e.trip.status ≡ started) × Found pg (Later e.trip) e.trip_id ts

-- A message of a topic: an event that was marshalled, and the trip that it is about.
pub data MessageTraced (pg : Postgres) (json : Json) (ts : List Trip) (m : Message) : Type 0 where
  is_requested :
      (ev : RideRequestedEvent)
      → m.topic ≡ topic_ride_requested
      → json.marshal_requested ev ≡ ok m.value
      → Found pg (IsRequestOf ev) ev.trip_id ts
      → MessageTraced pg json ts m
  is_assigned :
      (ev : DriverAssignedEvent)
      → m.topic ≡ topic_driver_assigned
      → json.marshal_assigned ev ≡ ok m.value
      → Found pg IsAny ev.trip_id ts
      → MessageTraced pg json ts m
  is_completed :
      (ev : TripCompletedEvent)
      → m.topic ≡ topic_trip_completed
      → json.marshal_completed ev ≡ ok m.value
      → Found pg (IsEndOf ev) ev.trip_id ts
      → MessageTraced pg json ts m

-- All of them, over the rows as they are.
pub record Traced (pg : Postgres) (json : Json) (ts : List Trip) (jobs : List Job)
    (ends : List EndRun) (log : Log) : Type 0 where
  pub jobs_traced : All (JobTraced pg ts) jobs
  pub ends_traced : All (EndTraced pg ts) ends
  pub log_traced : All (MessageTraced pg json ts) log

abbrev pub IsTraced : Postgres → Json → System → Type 0
IsTraced pg json s = Traced pg json (rows s) s.world.jobs s.ends s.world.log

module _ (pg : Postgres) (json : Json) (ts us : List Trip) (e : Evolves ts us) where
  JobTraced-Evolves : (j : Job) → JobTraced pg ts j → JobTraced pg us j
  JobTraced-Evolves (publish_requested ev) =
      Found-Evolves pg (IsRequestOf ev) (Stays-IsRequestOf ev) ev.trip_id ts us e
  JobTraced-Evolves (publish_completed ev) =
      Found-Evolves pg (IsEndOf ev) (Stays-IsEndOf ev) ev.trip_id ts us e

  EndTraced-Evolves : (x : EndRun) → EndTraced pg ts x → EndTraced pg us x
  EndTraced-Evolves x (s, f) =
      (s, Found-Evolves pg (Later x.trip) (Stays-Later x.trip) x.trip_id ts us e f)

  MessageTraced-Evolves : (m : Message) → MessageTraced pg json ts m → MessageTraced pg json us m
  MessageTraced-Evolves m (MessageTraced.is_requested ev t b f) =
      MessageTraced.is_requested ev t b
        (Found-Evolves pg (IsRequestOf ev) (Stays-IsRequestOf ev) ev.trip_id ts us e f)
  MessageTraced-Evolves m (MessageTraced.is_assigned ev t b f) =
      MessageTraced.is_assigned ev t b (Found-Evolves pg IsAny (λ _ _ _ p. p) ev.trip_id ts us e f)
  MessageTraced-Evolves m (MessageTraced.is_completed ev t b f) =
      MessageTraced.is_completed ev t b
        (Found-Evolves pg (IsEndOf ev) (Stays-IsEndOf ev) ev.trip_id ts us e f)

  -- What is traced stays so while the rows move.
  pub Traced-Evolves :
      (jobs : List Job) (ends : List EndRun) (log : Log)
      → Traced pg json ts jobs ends log
      → Traced pg json us jobs ends log
  Traced-Evolves jobs ends log t = record {
    jobs_traced = All-map _ _ JobTraced-Evolves jobs t.jobs_traced;
    ends_traced = All-map _ _ EndTraced-Evolves ends t.ends_traced;
    log_traced = All-map _ _ MessageTraced-Evolves log t.log_traced;
  }
