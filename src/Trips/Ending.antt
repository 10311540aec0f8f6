-- ===== src/Trips/Ending.antt =====
-- `End`: what it returns, what it charges and publishes, and two of them at once.
use uber.Base.{
  ℕ, String, Float, Time, Option, none, some, true, false, List, ◌∷◌, ◌≡◌, refl, inl, inr, arith,
  Bool-cases, ◌∙◌, Result-cases, ok, err, ◌≢◌,
}
use uber.Trips.Model.{Trip, started, completed}
use uber.Trips.Store.{IsPostgres, selects, assign_columns, update_row, find}
use uber.Trips.Rows.{find_same, find-update_rows-some}
use uber.Trips.Written.{IsWritten, update_rows-IsWritten}
use uber.Trips.Operations.{db-end_commit}
use uber.Trips.Service.{
  World, Deps, publish_completed, get_by_id, complete_update, end_check, end_commit, end,
  haversine_km, distance_km, fare_of, completed_event,
}

module _ (d : Deps) where
  -- The distance that a trip is charged for: the client's if there is one above 0, else the
  -- great-circle distance of its two places.
  pub data Charged (t : Trip) (dist : Option Float) (km : Float) : Type 0 where
    given : dist ≡ some km → d.go.lt (d.go.of_nat 0) km ≡ true → Charged t dist km
    measured :
        ((x : Float) → dist ≡ some x → d.go.lt (d.go.of_nat 0) x ≡ false)
        → km ≡ haversine_km d t.pickup_lat t.pickup_lng t.drop_lat t.drop_lng
        → Charged t dist km

  Charged-distance_km : (dist : Option Float) (t : Trip) → Charged t dist (distance_km d dist t)
  unfolding distance_km
  Charged-distance_km none t = measured (λ x e. cc) refl
  Charged-distance_km (some x) t = elim (Bool-cases (d.go.lt (d.go.of_nat 0) x)) [
    | inl pos ↦ rw (pos, distance_km) (given refl pos)
    | inr low ↦ rw (low, distance_km) (measured (λ y e. ground (arith, low)) refl)
  ]

  complete_update_row :
      (trip : String) (fare : Float) (now : Time) (ts : List Trip) (r : Trip)
      → find d.pg trip ts ≡ some r
      → update_row d.pg (complete_update trip fare now) r ≡ record r {
        fare = some (d.pg.decimal fare);
        status = completed;
        completed_at = some (d.pg.timestamp now);
      }
  unfolding update_row selects assign_columns complete_update
  complete_update_row trip fare now ts r e = ground (arith, find_same d.pg trip ts r)

  end_commit_inv :
      (trip : String) (dist : Option Float) (now : Time) (r : Trip) (w : World) (t : Trip)
      → (end_commit d trip dist now r w).1 ≡ ok t
      → let u = complete_update trip (fare_of d (distance_km d dist r)) now in
        (k : ℕ) × ((d.pg.exec_update u w.db).1 ≡ ok k)
        × (d.pg.query_row trip (d.pg.exec_update u w.db).0 ≡ ok t)
        × ((end_commit d trip dist now r w).0.jobs
            ≡ publish_completed (completed_event d r trip (fare_of d (distance_km d dist r)) now)
              ∷ w.jobs)
  unfolding end_commit get_by_id
  end_commit_inv trip dist now r w t e = ground arith

  end_inv :
      (trip : String) (dist : Option Float) (now : Time) (w : World) (t : Trip)
      → (end d trip dist now w).1 ≡ ok t
      → (r : Trip) × (d.pg.query_row trip w.db ≡ ok r)
        × (r.status ≡ started)
        × (end d trip dist now w ≡ end_commit d trip dist now r w)
  unfolding end end_check get_by_id
  end_inv trip dist now w t e = ground arith

  -- The fare in rupees, 50 and 12 for each kilometre.
  abbrev pub rupees : Float → Float
  rupees km = d.go.add (d.go.of_nat 50) (d.go.mul km (d.go.of_nat 12))

  -- The completed row, at a distance and a time.
  abbrev pub ended : Trip → Float → Time → Trip
  ended r km now = record r {
    fare = some (d.pg.decimal (rupees km));
    status = completed;
    completed_at = some (d.pg.timestamp now);
  }

  module _ (laws : IsPostgres d.pg) where
    commit_ok :
        (trip : String) (dist : Option Float) (now : Time) (r r' : Trip) (w : World) (t : Trip)
        → find d.pg trip w.db.trips ≡ some r'
        → (end_commit d trip dist now r w).1 ≡ ok t
        → (t ≡ ended r' (distance_km d dist r) now)
          × ((end_commit d trip dist now r w).0.jobs
              ≡ publish_completed (completed_event d r trip (rupees (distance_km d dist r)) now)
                ∷ w.jobs)
          × (find d.pg trip (end_commit d trip dist now r w).0.db.trips ≡ some t)
    unfolding fare_of
    commit_ok trip dist now r r' w t found e =
        let fare = fare_of d (distance_km d dist r) in
        let u = complete_update trip fare now in
        let (k, tag, read, job) = end_commit_inv trip dist now r w t e in
        let (done, _) = laws.update_ok u w.db k tag in
        let after = laws.query_ok trip (d.pg.exec_update u w.db).0 t read in
        (
          find-update_rows-some d.pg u trip w.db.trips r' t found (rw done at after)
              ∙ complete_update_row trip fare now w.db.trips r' found,
          job,
          rw db-end_commit after,
        )

    -- `End` that returns a trip, on a PostgreSQL that keeps `IsPostgres`: the row was STARTED, and
    -- the trip is that row with COMPLETED, the completion time and the fare set, 50 + 12 per km of
    -- the charged distance as DECIMAL(12,2) keeps it. One goroutine was started, which publishes
    -- the fare before that rounding.
    pub end_ok :
        (trip : String) (dist : Option Float) (now : Time) (w : World) (t : Trip)
        → (end d trip dist now w).1 ≡ ok t
        → (r : Trip) × (km : Float) × (find d.pg trip w.db.trips ≡ some r)
          × (r.status ≡ started)
          × Charged r dist km
          × (t ≡ ended r km now)
          × ((end d trip dist now w).0.jobs
              ≡ publish_completed (completed_event d r trip (rupees km) now) ∷ w.jobs)
    end_ok trip dist now w t e =
        let (r, read, begun, same) = end_inv trip dist now w t e in
        let found = laws.query_ok trip w.db r read in
        let (row, job, _) = commit_ok trip dist now r r w t found (rw same at e) in
        (r, distance_km d dist r, found, begun, Charged-distance_km dist r, row, rw same job)

    -- `End` that returns a trip has set the trip's row to it, and no other row.
    pub end-IsWritten :
        (trip : String) (dist : Option Float) (now : Time) (w : World) (t : Trip)
        → (end d trip dist now w).1 ≡ ok t
        → IsWritten d.pg trip w.db.trips t (end d trip dist now w).0.db.trips
    unfolding complete_update
    end-IsWritten trip dist now w t e =
        let (r, _, _, same) = end_inv trip dist now w t e in
        let u = complete_update trip (fare_of d (distance_km d dist r)) now in
        let (k, tag, read, _) = end_commit_inv trip dist now r w t (rw same at e) in
        let (done, _) = laws.update_ok u w.db k tag in
        let after = laws.query_ok trip (d.pg.exec_update u w.db).0 t read in
        rw (same, db-end_commit, done)
          (update_rows-IsWritten d.pg laws u w.db.trips t (rw done at after))

    -- `End` of a trip in any status but STARTED, on a PostgreSQL that keeps `IsPostgres`, returns
    -- an error and changes nothing at all.
    pub end_refused :
        (trip : String) (dist : Option Float) (now : Time) (w : World) (r : Trip)
        → find d.pg trip w.db.trips ≡ some r
        → r.status ≢ started
        → (x : String) × (end d trip dist now w ≡ (w, err x))
    unfolding end end_check get_by_id
    end_refused trip dist now w r found other = elim (Result-cases (d.pg.query_row trip w.db)) [
      | inl (t, e) ↦ ("trip not in STARTED state", ground (arith, laws.query_ok trip w.db t))
      | inr (m, e) ↦ ("trip not found", ground arith)
    ]

    -- On a PostgreSQL that keeps `IsPostgres`, two `End`s of one trip that both read it before
    -- either writes, and that both return a trip: the second overwrites the fare and the time of
    -- the first, and two completions are published.
    pub end_twice :
        (trip : String) (dist dist' : Option Float) (now now' : Time) (w : World) (r t t' : Trip)
        → end_check d trip w.db ≡ ok r
        → (end_commit d trip dist now r w).1 ≡ ok t
        → (end_commit d trip dist' now' r (end_commit d trip dist now r w).0).1 ≡ ok t'
        → (t' ≡ ended t (distance_km d dist' r) now')
          × ((end_commit d trip dist' now' r (end_commit d trip dist now r w).0).0.jobs
              ≡ publish_completed (completed_event d r trip (rupees (distance_km d dist' r)) now')
                ∷ publish_completed (completed_event d r trip (rupees (distance_km d dist r)) now)
                ∷ w.jobs)
    unfolding end_check get_by_id
    end_twice trip dist dist' now now' w r t t' c e e' =
        let found : find d.pg trip w.db.trips ≡ some r =
          ground (arith, laws.query_ok trip w.db r) in
        let (row, job, after) = commit_ok trip dist now r r w t found e in
        let (row', job', _) =
          commit_ok trip dist' now' r t (end_commit d trip dist now r w).0 t' after e' in
        (row', rw job at job')
