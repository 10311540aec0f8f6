-- ===== src/Trips/Tracing.antt =====
-- What the steps of Trips.System leave behind: goroutines, running Ends and messages, each with the
-- row that it is about.
use uber.Base.{
  ℕ, zero, suc, String, Float, Time, Option, true, List, ◌∷◌, ◌++◌, ◌≡◌, refl, arith, All,
  All-append, All-split, Result, Result-cases, ok, err, inl, inr, ◌⊎◌,
}
use uber.Events.{Bytes, RideRequestedEvent}
use uber.Kafka.{
  Broker, IsBroker, Message, Log, publish, replicate, topic_ride_requested, topic_trip_completed,
}
use uber.Trips.Model.{Trip, TripRequest, started}
use uber.Trips.Store.{IsPostgres, Db, inserted, selects, assign_columns, update_row}
use uber.Trips.Rows.{find-update_rows, find_same, find-append_new}
use uber.Trips.Lifecycle.{Later, Later-refl}
use uber.Trips.Service.{
  Deps, World, Job, publish_requested, publish_completed, new_trip, request, after_update,
  assign_driver, start, complete_update, fare_of, distance_km, completed_event, end_commit,
  on_driver_assigned, run_job,
}
use uber.Trips.Operations.{db-request, db-end_commit}
use uber.Trips.System.{EndRun, System, Step, rows, Inv, Step-sound, end_check_started}
use uber.Trips.Traced.{IsEndOf, Found, Traced, IsTraced, MessageTraced, JobTraced, Traced-Evolves}

All-replicate : {A : Type 0} (P : A → Type 0) (n : ℕ) (a : A) → P a → All P (replicate n a)
All-replicate P zero a p = tt
All-replicate P (suc n) a p = (p, All-replicate P n a p)

module _ (b : Broker) (laws : IsBroker b) where
  -- Whatever a `Publish` stores has the property that its message has.
  pub All-publish :
      (P : Message → Type 0) (topic key : String) (value : Result Bytes) (log : Log)
      → ((bytes : Bytes)
          → value ≡ ok bytes
          → P (record { topic = topic; key = key; value = bytes }))
      → All P log
      → All P (publish b topic key value log).0
  unfolding publish
  All-publish P topic key (err e) log p h = h
  All-publish P topic key (ok bytes) log p h =
      let m : Message = record { topic = topic; key = key; value = bytes } in
      let (n, stored) = laws.stored m log in
      rw stored (All-append P log (replicate n m) h (All-replicate P n m (p bytes refl)))

module _ (d : Deps) where
  kept-after_update :
      (m id : String) (w : World) (r : Db × Result ℕ)
      → ((after_update d m id w r).0.jobs ≡ w.jobs) × ((after_update d m id w r).0.log ≡ w.log)
  unfolding after_update
  kept-after_update m id w (db, err e) = (refl, refl)
  kept-after_update m id w (db, ok zero) = (refl, refl)
  kept-after_update m id w (db, ok (suc n)) = (refl, refl)

  kept-assign_driver :
      (trip driver : String) (w : World)
      → ((assign_driver d trip driver w).0.jobs ≡ w.jobs)
        × ((assign_driver d trip driver w).0.log ≡ w.log)
  unfolding assign_driver
  kept-assign_driver trip driver w = kept-after_update _ trip w _

  kept-start :
      (trip : String) (now : Time) (w : World)
      → ((start d trip now w).0.jobs ≡ w.jobs) × ((start d trip now w).0.log ≡ w.log)
  unfolding start
  kept-start trip now w = kept-after_update _ trip w _

  log-request :
      (id : String) (now : Time) (rider : String) (req : TripRequest) (w : World)
      → (request d id now rider req w).0.log ≡ w.log
  unfolding request
  log-request id now rider req w = ground arith

  log-end_commit :
      (trip : String) (dist : Option Float) (now : Time) (t : Trip) (w : World)
      → (end_commit d trip dist now t w).0.log ≡ w.log
  unfolding end_commit
  log-end_commit trip dist now t w = ground arith

  kept-on_driver_assigned :
      (bytes : Bytes) (w : World)
      → ((on_driver_assigned d bytes w).0.jobs ≡ w.jobs)
        × ((on_driver_assigned d bytes w).0.log ≡ w.log)
  unfolding on_driver_assigned
  kept-on_driver_assigned bytes w = (ground arith, ground arith)

-- No new goroutine, or one whose event is true of the rows.
abbrev Spawned : Deps → World → World → Type 0
Spawned d w w' =
    (w'.jobs ≡ w.jobs) ⊎ ((j : Job) × (w'.jobs ≡ j ∷ w.jobs) × JobTraced d.pg w'.db.trips j)

Spawned-traced :
    (d : Deps) (w w' : World)
    → Spawned d w w'
    → All (JobTraced d.pg w'.db.trips) w.jobs
    → All (JobTraced d.pg w'.db.trips) w'.jobs
Spawned-traced d w w' (inl same) h = rw same h
Spawned-traced d w w' (inr (j, more, t)) h = rw more (t, h)

-- The row that a completed `End` leaves.
ended_row :
    (d : Deps) (trip : String) (fare : Float) (now : Time) (t r : Trip)
    → d.pg.same_uuid trip r.id ≡ true
    → t.status ≡ started
    → Later t r
    → IsEndOf
        (completed_event d t trip fare now)
        (update_row d.pg (complete_update trip fare now) r)
unfolding completed_event update_row selects assign_columns complete_update
ended_row d trip fare now t r same was later = ground arith

-- The event of `Request`.
abbrev requested_event :
    Deps → (id : String) (now : Time) (rider : String) → TripRequest → RideRequestedEvent
requested_event d id now rider req = record {
  trip_id = id;
  rider_id = rider;
  pickup = record { lat = req.pickup_lat; lng = req.pickup_lng };
  drop = record { lat = req.drop_lat; lng = req.drop_lng };
  requested_at = d.go.rfc3339 now;
}

module _ (d : Deps) (laws : IsPostgres d.pg) where
  Spawned-request :
      ((a : String) → d.pg.same_uuid a a ≡ true)
      → (id : String) (now : Time) (rider : String) (req : TripRequest) (w : World)
      → Spawned d w (request d id now rider req w).0
  Spawned-request uuid_refl id now rider req w =
      let n = new_trip id now rider req in
      elim (Result-cases (d.pg.exec_insert n w.db).1) [
        | inr (e, bad) ↦ inl (unfold request in ground (arith, bad))
        | inl (k, good) ↦
            let (done, new) = laws.insert_ok n w.db k good in
            let row = inserted d.pg n w.db.clock in
            inr (
              publish_requested (requested_event d id now rider req),
              unfold request in ground (arith, good),
              (
                row,
                rw (db-request d laws id now rider req w, done)
                    (find-append_new d.pg id w.db.trips row (unfold new_trip in new)
                      (unfold inserted new_trip in uuid_refl id)),
                unfold inserted new_trip in ground arith,
              ),
            )
      ]

  Spawned-end_commit :
      (trip : String) (dist : Option Float) (now : Time) (t : Trip) (w : World)
      → t.status ≡ started
      → Found d.pg (Later t) trip w.db.trips
      → Spawned d w (end_commit d trip dist now t w).0
  Spawned-end_commit trip dist now t w was (r, found, later) =
      let fare = fare_of d (distance_km d dist t) in
      let u = complete_update trip fare now in
      elim (Result-cases (d.pg.exec_update u w.db).1) [
        | inr (e, bad) ↦ inl (unfold end_commit in ground (arith, bad))
        | inl (k, good) ↦
            let (done, _) = laws.update_ok u w.db k good in
            inr (
              publish_completed (completed_event d t trip fare now),
              unfold end_commit in ground (arith, good),
              (
                update_row d.pg u r,
                unfold completed_event in
                    rw (db-end_commit d laws trip dist now t w, done)
                      (rw (find-update_rows d.pg u trip w.db.trips, found) refl),
                ended_row d trip fare now t r (find_same d.pg trip w.db.trips r found) was later,
              ),
            )
      ]

module _ (d : Deps) (laws : IsPostgres d.pg) (broker : IsBroker d.broker) where
  run_job-Traced :
      (j : Job) (w : World) (ends : List EndRun)
      → JobTraced d.pg w.db.trips j
      → Traced d.pg d.json w.db.trips w.jobs ends w.log
      → let w' = run_job d j w in Traced d.pg d.json w'.db.trips w'.jobs ends w'.log
  unfolding run_job
  run_job-Traced (publish_requested ev) w ends f t = record {
    jobs_traced = t.jobs_traced;
    ends_traced = t.ends_traced;
    log_traced =
        All-publish d.broker broker _ topic_ride_requested ev.trip_id (d.json.marshal_requested ev)
          w.log (λ bytes sent. MessageTraced.is_requested ev refl sent f) t.log_traced;
  }
  run_job-Traced (publish_completed ev) w ends f t = record {
    jobs_traced = t.jobs_traced;
    ends_traced = t.ends_traced;
    log_traced =
        All-publish d.broker broker _ topic_trip_completed ev.trip_id (d.json.marshal_completed ev)
          w.log (λ bytes sent. MessageTraced.is_completed ev refl sent f) t.log_traced;
  }

  module _ (uuid_refl : (a : String) → d.pg.same_uuid a a ≡ true) where
    -- A step keeps it all traced, since what was traced is so over the rows that it leaves.
    Traced-Step :
        {s s' : System}
        → Step d s s'
        → IsTraced d.pg d.json s
        → Traced d.pg d.json (rows s') s.world.jobs s.ends s.world.log
        → IsTraced d.pg d.json s'
    Traced-Step {s} (Step.requests id now rider req e) old t =
        let t' = rw e at t in
        rw e (record {
          jobs_traced =
              Spawned-traced d s.world (request d id now rider req s.world).0
                (Spawned-request d laws uuid_refl id now rider req s.world) t'.jobs_traced;
          ends_traced = t'.ends_traced;
          log_traced = rw (log-request d id now rider req s.world) t'.log_traced;
        })
    Traced-Step {s} (Step.assigns trip driver e) old t =
        let t' = rw e at t in
        let (jobs, log) = kept-assign_driver d trip driver s.world in
        rw e (record {
          jobs_traced = rw jobs t'.jobs_traced;
          ends_traced = t'.ends_traced;
          log_traced = rw log t'.log_traced;
        })
    Traced-Step {s} (Step.starts trip now e) old t =
        let t' = rw e at t in
        let (jobs, log) = kept-start d trip now s.world in
        rw e (record {
          jobs_traced = rw jobs t'.jobs_traced;
          ends_traced = t'.ends_traced;
          log_traced = rw log t'.log_traced;
        })
    Traced-Step {s} (Step.end_reads trip dist x c e) old t =
        let t' = rw e at t in
        let (found, was) = end_check_started d laws trip s.world.db x c in
        rw e (record {
          jobs_traced = t'.jobs_traced;
          ends_traced = ((was, (x, found, Later-refl x)), t'.ends_traced);
          log_traced = t'.log_traced;
        })
    Traced-Step {s} (Step.end_writes before x after now split e) old t =
        let t' = rw e at t in
        let ((was, found), _) = All-split _ before x after (rw split at old.ends_traced) in
        let (_, others) = All-split _ before x after (rw split at t'.ends_traced) in
        rw e (record {
          jobs_traced =
              Spawned-traced d s.world (end_commit d x.trip_id x.dist now x.trip s.world).0
                (Spawned-end_commit d laws x.trip_id x.dist now x.trip s.world was found)
                t'.jobs_traced;
          ends_traced = others;
          log_traced = rw (log-end_commit d x.trip_id x.dist now x.trip s.world) t'.log_traced;
        })
    Traced-Step {s} (Step.goroutine before j after split e) old t =
        let (at, others) = All-split _ before j after (rw split at old.jobs_traced) in
        rw e (
          run_job-Traced j (record s.world { jobs = before ++ after }) s.ends at
            (record {
              jobs_traced = others;
              ends_traced = old.ends_traced;
              log_traced = old.log_traced;
            }))
    Traced-Step {s} (Step.consumes bytes e) old t =
        let t' = rw e at t in
        let (jobs, log) = kept-on_driver_assigned d bytes s.world in
        rw e (record {
          jobs_traced = rw jobs t'.jobs_traced;
          ends_traced = t'.ends_traced;
          log_traced = rw log t'.log_traced;
        })

    -- A step keeps all of it traced.
    pub Step-IsTraced :
        {s s' : System} → Step d s s' → Inv d s → IsTraced d.pg d.json s → IsTraced d.pg d.json s'
    Step-IsTraced {s} {s'} st i t = Traced-Step st t (
        Traced-Evolves d.pg d.json (rows s) (rows s') (Step-sound d laws st i).0 s.world.jobs s.ends
          s.world.log t)
