-- ===== src/Trips/Operations.antt =====
-- What each operation of the service does to the table, whatever the database answers.
use uber.Base.{
  ℕ, zero, suc, String, Float, Time, Option, List, ◌≡◌, refl, inl, inr, arith, All, Result,
  Result-cases, ok, err,
}
use uber.Events.{Bytes}
use uber.Trips.Model.{Trip, TripRequest}
use uber.Trips.Store.{Postgres, IsPostgres, Update, Db, NewTrip, inserted, update_row, IsKeyed}
use uber.Trips.Rows.{IsKeyed-update_rows, IsKeyed-append}
use uber.Trips.Lifecycle.{Move, IsFresh, Evolves, Evolves-refl, Evolves-append}
use uber.Trips.Updates.{assign_update-Move, start_update-Move, Evolves-update_rows, All-every}
use uber.Trips.Held.{
  Held, IsForward, Held-update_rows, Held-append, complete_moves, assign_update-IsForward,
  start_update-IsForward, complete_update-IsForward,
}
use uber.Trips.Service.{
  World, Deps, assign_update, start_update, complete_update, after_update, request, assign_driver,
  start, end_commit, on_driver_assigned, Job, publish_requested, publish_completed, run_job,
  fare_of, distance_km, new_trip,
}

-- The rows before and after: they evolve, keys stay unique, and a ride under way stays so.
pub record Outcome (pg : Postgres) (ts us : List Trip) : Type 0 where
  pub evolves : Evolves ts us
  pub keyed : IsKeyed pg ts → IsKeyed pg us
  pub held : (id : String) → Held pg id ts → Held pg id us

module _ (pg : Postgres) where
  pub Outcome-same : (ts us : List Trip) → us ≡ ts → Outcome pg ts us
  Outcome-same ts us e =
      rw e (record { evolves = Evolves-refl ts; keyed = λ k. k; held = λ id h. h })

  module _ (laws : IsPostgres pg) where
    Outcome-update :
        (u : Update) (db : Db)
        → All (λ t. Move t (update_row pg u t)) db.trips
        → IsForward pg u
        → Outcome pg db.trips (pg.exec_update u db).0.trips
    Outcome-update u db moves forward = elim (laws.update_atomic u db) [
      | inl same ↦ Outcome-same db.trips _ same
      | inr done ↦ rw done (record {
        evolves = Evolves-update_rows pg u db.trips moves;
        keyed = IsKeyed-update_rows pg u db.trips;
        held = λ id. Held-update_rows pg u id db.trips forward;
      })
    ]

    Outcome-assign :
        (trip driver : String) (db : Db)
        → Outcome pg db.trips (pg.exec_update (assign_update trip driver) db).0.trips
    Outcome-assign trip driver db =
        Outcome-update (assign_update trip driver) db
          (All-every pg _ db.trips (assign_update-Move pg trip driver))
          (assign_update-IsForward pg trip driver)

    Outcome-start :
        (trip : String) (now : Time) (db : Db)
        → Outcome pg db.trips (pg.exec_update (start_update trip now) db).0.trips
    Outcome-start trip now db =
        Outcome-update (start_update trip now) db
          (All-every pg _ db.trips (start_update-Move pg trip now))
          (start_update-IsForward pg trip now)

    Outcome-complete :
        (trip : String) (fare : Float) (now : Time) (db : Db)
        → Held pg trip db.trips
        → Outcome pg db.trips (pg.exec_update (complete_update trip fare now) db).0.trips
    Outcome-complete trip fare now db h =
        Outcome-update (complete_update trip fare now) db
          (complete_moves pg trip fare now db.trips h) (complete_update-IsForward pg trip fare now)

    Outcome-insert :
        (n : NewTrip) (db : Db)
        → IsFresh (inserted pg n db.clock)
        → Outcome pg db.trips (pg.exec_insert n db).0.trips
    Outcome-insert n db fresh = elim (laws.insert_atomic n db) [
      | inl same ↦ Outcome-same db.trips _ same
      | inr (added, new) ↦ rw added (record {
        evolves = Evolves-append db.trips (inserted pg n db.clock) fresh;
        keyed = λ k.
            IsKeyed-append pg laws db.trips (inserted pg n db.clock) k (unfold inserted in new);
        held =
            λ id. Held-append pg laws id db.trips (inserted pg n db.clock) (unfold inserted in new);
      })
    ]

module _ (d : Deps) (laws : IsPostgres d.pg) where
  pub db-request :
      (id : String) (now : Time) (rider : String) (req : TripRequest) (w : World)
      → (request d id now rider req w).0.db ≡ (d.pg.exec_insert (new_trip id now rider req) w.db).0
  unfolding request
  db-request id now rider req w = ground arith

  pub Outcome-request :
      (id : String) (now : Time) (rider : String) (req : TripRequest) (w : World)
      → Outcome d.pg w.db.trips (request d id now rider req w).0.db.trips
  Outcome-request id now rider req w = rw db-request (
      Outcome-insert d.pg laws (new_trip id now rider req) w.db
        (unfold inserted new_trip in ground arith))

  pub db-after_update :
      (m id : String) (w : World) (r : Db × Result ℕ) → (after_update d m id w r).0.db ≡ r.0
  unfolding after_update
  db-after_update m id w (db, err e) = refl
  db-after_update m id w (db, ok zero) = refl
  db-after_update m id w (db, ok (suc n)) = refl

  pub Outcome-assign_driver :
      (trip driver : String) (w : World)
      → Outcome d.pg w.db.trips (assign_driver d trip driver w).0.db.trips
  unfolding assign_driver
  Outcome-assign_driver trip driver w =
      rw db-after_update (Outcome-assign d.pg laws trip driver w.db)

  pub Outcome-start_trip :
      (trip : String) (now : Time) (w : World)
      → Outcome d.pg w.db.trips (start d trip now w).0.db.trips
  unfolding start
  Outcome-start_trip trip now w = rw db-after_update (Outcome-start d.pg laws trip now w.db)

  pub db-end_commit :
      (trip : String) (dist : Option Float) (now : Time) (t : Trip) (w : World)
      → (end_commit d trip dist now t w).0.db
        ≡ (d.pg.exec_update (complete_update trip (fare_of d (distance_km d dist t)) now) w.db).0
  unfolding end_commit
  db-end_commit trip dist now t w = ground arith

  pub Outcome-end_commit :
      (trip : String) (dist : Option Float) (now : Time) (t : Trip) (w : World)
      → Held d.pg trip w.db.trips
      → Outcome d.pg w.db.trips (end_commit d trip dist now t w).0.db.trips
  Outcome-end_commit trip dist now t w h =
      rw db-end_commit
        (Outcome-complete d.pg laws trip (fare_of d (distance_km d dist t)) now w.db h)

  pub Outcome-on_driver_assigned :
      (bytes : Bytes) (w : World)
      → Outcome d.pg w.db.trips (on_driver_assigned d bytes w).0.db.trips
  unfolding on_driver_assigned
  Outcome-on_driver_assigned bytes w = elim (Result-cases (d.json.unmarshal_assigned bytes)) [
    | inl (ev, e) ↦
        rw (e, on_driver_assigned) (Outcome-assign d.pg laws ev.trip_id ev.driver_id w.db)
    | inr (m, e) ↦ rw (e, on_driver_assigned) (Outcome-same d.pg w.db.trips w.db.trips refl)
  ]

  pub db-run_job : (j : Job) (w : World) → (run_job d j w).db ≡ w.db
  unfolding run_job
  db-run_job (publish_requested ev) w = refl
  db-run_job (publish_completed ev) w = refl
