-- ===== src/Server/Provenance.antt =====
-- What stands behind the messages of the running program.
use uber.Base.{
  String, true, List, [], ◌∷◌, ◌++◌, ◌≡◌, refl, sym, subst, arith, All, All-split, Result,
  Result-cases, ok, err, inl, inr,
}
use text.Mathlib.TextEquality.{eq_iff}
use uber.Events.{Json, IsJson, RideRequestedEvent, DriverAssignedEvent}
use uber.Kafka.{
  IsBroker, Message, publish, topic_ride_requested, topic_driver_assigned, topic_trip_completed,
}
use uber.Matching.Dispatch
use uber.Matching.Dispatch.{on_ride_requested, nearest_driver, assign_first, assign_nearest}
use uber.Trips.Model.{Trip}
use uber.Trips.Store.{IsPostgres, Postgres}
use uber.Trips.System as Trips
use uber.Trips.System.{System, Inv, rows}
use uber.Trips.Traced.{
  Found, IsAny, MessageTraced, is_requested, is_assigned, is_completed, IsTraced,
}
use uber.Trips.Tracing.{All-publish, Step-IsTraced}
use uber.Server.Model.{ServerDeps, trip_deps}
use uber.Server.Process.{Process, system, matcher_deps, matched}
use uber.Server.Effects.{Effect}

-- A message of ride.requested that was marshalled is read as the event that it was.
requested_of :
    (pg : Postgres) (json : Json)
    → IsJson json
    → (ts : List Trip) (m : Message) (ev : RideRequestedEvent) → m.topic ≡ topic_ride_requested
    → json.unmarshal_requested m.value ≡ ok ev
    → MessageTraced pg json ts m
    → Found pg IsAny ev.trip_id ts
requested_of pg json laws ts m ev topic read (is_requested ev' t sent (r, found, _)) =
    let same : ev' ≡ ev = cc (laws.requested_round_trip ev' m.value sent) in
    (r, rw (← same) found, tt)
requested_of pg json laws ts m ev topic read (is_assigned ev' t sent f) =
    absurd (ground (arith, eq_iff topic_ride_requested topic_driver_assigned))
requested_of pg json laws ts m ev topic read (is_completed ev' t sent f) =
    absurd (ground (arith, eq_iff topic_ride_requested topic_trip_completed))

module _ (d : Dispatch.Deps) (pg : Postgres) (broker : IsBroker d.broker) (laws : IsJson d.json)
    (ts : List Trip) where
  log-assign_nearest :
      (ev : RideRequestedEvent) (driver : String) (w : Dispatch.World)
      → (assign_nearest d ev driver w).0.log
        ≡ (publish d.broker topic_driver_assigned ev.trip_id
            (d.json.marshal_assigned (record { trip_id = ev.trip_id; driver_id = driver }))
            w.log).0
  unfolding assign_nearest
  log-assign_nearest ev driver w = ground arith

  assign_nearest_traced :
      (ev : RideRequestedEvent) (driver : String) (w : Dispatch.World)
      → Found pg IsAny ev.trip_id ts
      → All (MessageTraced pg d.json ts) w.log
      → All (MessageTraced pg d.json ts) (assign_nearest d ev driver w).0.log
  assign_nearest_traced ev driver w f h =
      let assigned : DriverAssignedEvent = record { trip_id = ev.trip_id; driver_id = driver } in
      rw (log-assign_nearest ev driver w) (
        All-publish d.broker broker (MessageTraced pg d.json ts) topic_driver_assigned ev.trip_id
          (d.json.marshal_assigned assigned) w.log (λ bytes sent. is_assigned assigned refl sent f)
          h)

  assign_first_traced :
      (ev : RideRequestedEvent) (found : Result (List String)) (w : Dispatch.World)
      → Found pg IsAny ev.trip_id ts
      → All (MessageTraced pg d.json ts) w.log
      → All (MessageTraced pg d.json ts) (assign_first d ev found w).0.log
  unfolding assign_first
  assign_first_traced ev (err e) w f h = h
  assign_first_traced ev (ok []) w f h = h
  assign_first_traced ev (ok (driver ∷ more)) w f h = assign_nearest_traced ev driver w f h

  -- The matcher writes only about trips that stand in the table.
  pub on_ride_requested_traced :
      (m : Message) (w : Dispatch.World)
      → m.topic ≡ topic_ride_requested
      → MessageTraced pg d.json ts m
      → All (MessageTraced pg d.json ts) w.log
      → All (MessageTraced pg d.json ts) (on_ride_requested d m.value w).0.log
  unfolding on_ride_requested
  on_ride_requested_traced m w topic t h =
      elim (Result-cases (d.json.unmarshal_requested m.value)) [
        | inr (e, bad) ↦ rw (bad, on_ride_requested) h
        | inl (ev, read) ↦
            rw (read, on_ride_requested)
              (assign_first_traced ev (nearest_driver d ev w.geo) w
                (requested_of pg d.json laws ts m ev topic read t) h)
      ]

module _ (d : ServerDeps) (laws : IsPostgres d.pg) (broker : IsBroker d.broker)
    (json : IsJson d.json) (uuid_refl : (a : String) → d.pg.same_uuid a a ≡ true) where
  Run-IsTraced :
      {s s' : System}
      → Trips.Run (trip_deps d) s s'
      → Inv (trip_deps d) s
      → IsTraced d.pg d.json s
      → IsTraced d.pg d.json s'
  Run-IsTraced Trips.here i t = t
  Run-IsTraced (Trips.next r st) i t =
      Step-IsTraced (trip_deps d) laws broker uuid_refl st (Trips.Run-Inv (trip_deps d) laws r i)
        (Run-IsTraced r i t)

  matched-IsTraced :
      (before : List Message) (m : Message) (after : List Message) (p : Process)
      → p.server.trips.log ≡ before ++ (m ∷ after)
      → m.topic ≡ topic_ride_requested
      → IsTraced d.pg d.json (system p)
      → IsTraced d.pg d.json (system (matched d m p))
  matched-IsTraced before m after p split topic t =
      let s = p.server in
      let (at, _) = All-split _ before m after (rw split at t.log_traced) in
      record {
        jobs_traced = t.jobs_traced;
        ends_traced = t.ends_traced;
        log_traced =
            on_ride_requested_traced (matcher_deps d) d.pg broker json (rows (system p)) m
              (record { geo = s.drivers.geo; log = s.trips.log }) topic at t.log_traced;
      }

  pub IsTraced-Effect :
      {p p' : Process}
      → Effect d p p'
      → Inv (trip_deps d) (system p)
      → IsTraced d.pg d.json (system p)
      → IsTraced d.pg d.json (system p')
  IsTraced-Effect (Effect.runs r) i t = Run-IsTraced r i t
  IsTraced-Effect {p} (Effect.rounds before m after split topic e) i t =
      subst (IsTraced d.pg d.json) (sym e) (matched-IsTraced before m after p split topic t)
