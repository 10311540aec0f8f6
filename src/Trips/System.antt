-- ===== src/Trips/System.antt =====
-- The service as concurrent requests see it. Each statement runs on its own, so `End` is two steps,
-- with any others in between; goroutines and the driver.assigned consumer run at any time. What
-- the consumer is given is any bytes at all.
use uber.Base.{
  String, Float, Time, Option, some, List, ◌∷◌, ◌++◌, ◌≡◌, refl, arith, All, All-map, All-split, ok,
}
use uber.Events.{Bytes}
use uber.Trips.Model.{Trip, TripRequest, started}
use uber.Trips.Store.{IsPostgres, Db, IsKeyed, find}
use uber.Trips.Lifecycle.{
  Later, Grows, Grows-refl, Grows-Evolves, All-Evolves, IsWellFormed, Evolves, Evolves-refl,
}
use uber.Trips.Held.{Held, Held-find}
use uber.Trips.Operations.{
  Outcome, Outcome-same, Outcome-request, Outcome-assign_driver, Outcome-start_trip,
  Outcome-end_commit, Outcome-on_driver_assigned, db-run_job,
}
use uber.Trips.Service.{
  World, Deps, Job, get_by_id, request, assign_driver, start, end_check, end_commit,
  on_driver_assigned, run_job,
}

-- An `End` between its read and its update.
pub record EndRun : Type 0 where
  pub trip_id : String
  pub dist : Option Float
  pub trip : Trip

pub record System : Type 0 where
  pub world : World
  pub ends : List EndRun

pub data Step (d : Deps) (s s' : System) : Type 0 where
  requests :
      (id : String) (now : Time) (rider : String) (req : TripRequest)
      → s' ≡ record s { world = (request d id now rider req s.world).0 }
      → Step d s s'
  assigns :
      (trip driver : String)
      → s' ≡ record s { world = (assign_driver d trip driver s.world).0 }
      → Step d s s'
  starts :
      (trip : String) (now : Time)
      → s' ≡ record s { world = (start d trip now s.world).0 }
      → Step d s s'
  end_reads :
      (trip : String) (dist : Option Float) (t : Trip)
      → end_check d trip s.world.db ≡ ok t
      → s' ≡ record s { ends = record { trip_id = trip; dist = dist; trip = t } ∷ s.ends }
      → Step d s s'
  end_writes :
      (before : List EndRun) (e : EndRun) (after : List EndRun) (now : Time)
      → s.ends ≡ before ++ (e ∷ after)
      → s' ≡ record {
        world = (end_commit d e.trip_id e.dist now e.trip s.world).0;
        ends = before ++ after;
      }
      → Step d s s'
  goroutine :
      (before : List Job) (j : Job) (after : List Job)
      → s.world.jobs ≡ before ++ (j ∷ after)
      → s' ≡ record s { world = run_job d j (record s.world { jobs = before ++ after }) }
      → Step d s s'
  consumes :
      (bytes : Bytes)
      → s' ≡ record s { world = (on_driver_assigned d bytes s.world).0 }
      → Step d s s'

pub data Run (d : Deps) (s : System) : System → Type 0 where
  here : Run d s s
  next : {t u : System} → Run d s t → Step d t u → Run d s u

-- The ids are unique, and the trip of every `End` that is between its halves is under way.
pub record Inv (d : Deps) (s : System) : Type 0 where
  pub keyed : IsKeyed d.pg s.world.db.trips
  pub held : All (λ (e : EndRun). Held d.pg e.trip_id s.world.db.trips) s.ends

abbrev pub rows : System → List Trip
rows s = s.world.db.trips

module _ (d : Deps) (laws : IsPostgres d.pg) where
  -- A step of one operation on the table, with no `End` read or written.
  Inv-Outcome :
      (s : System) (w : World)
      → Outcome d.pg (rows s) w.db.trips
      → Inv d s
      → Inv d (record s { world = w })
  Inv-Outcome s w o i = record {
    keyed = o.keyed i.keyed;
    held = All-map _ _ (λ e. o.held e.trip_id) s.ends i.held;
  }

  pub end_check_started :
      (trip : String) (db : Db) (t : Trip)
      → end_check d trip db ≡ ok t
      → (find d.pg trip db.trips ≡ some t) × (t.status ≡ started)
  unfolding end_check get_by_id
  end_check_started trip db t e = ground (arith, laws.query_ok trip db t)

  jobs_keep_rows :
      (j : Job) (w : World) (js : List Job)
      → Outcome d.pg w.db.trips (run_job d j (record w { jobs = js })).db.trips
  jobs_keep_rows j w js = rw db-run_job (Outcome-same d.pg w.db.trips w.db.trips refl)

  -- What a step does to the table, and that the invariant survives it.
  pub Step-sound : {s s' : System} → Step d s s' → Inv d s → Evolves (rows s) (rows s') × Inv d s'
  Step-sound {s} (requests id now rider req e) i =
      let o = Outcome-request d laws id now rider req s.world in
      rw e (o.evolves, Inv-Outcome s _ o i)
  Step-sound {s} (assigns trip driver e) i =
      let o = Outcome-assign_driver d laws trip driver s.world in
      rw e (o.evolves, Inv-Outcome s _ o i)
  Step-sound {s} (starts trip now e) i =
      let o = Outcome-start_trip d laws trip now s.world in rw e (o.evolves, Inv-Outcome s _ o i)
  Step-sound {s} (end_reads trip dist t c e) i =
      let (found, is_started) = end_check_started trip s.world.db t c in
      rw e (
        Evolves-refl (rows s),
        record {
          keyed = i.keyed;
          held = (Held-find d.pg laws trip (rows s) t i.keyed found is_started, i.held);
        },
      )
  Step-sound {s} (end_writes before x after now split e) i =
      let (at, others) = All-split _ before x after (rw split at i.held) in
      let o = Outcome-end_commit d laws x.trip_id x.dist now x.trip s.world at in
      rw e (
        o.evolves,
        record {
          keyed = o.keyed i.keyed;
          held = All-map _ _ (λ y. o.held y.trip_id) (before ++ after) others;
        },
      )
  Step-sound {s} (goroutine before j after split e) i =
      let o = jobs_keep_rows j s.world (before ++ after) in rw e (o.evolves, Inv-Outcome s _ o i)
  Step-sound {s} (consumes bytes e) i =
      let o = Outcome-on_driver_assigned d laws bytes s.world in
      rw e (o.evolves, Inv-Outcome s _ o i)

  -- On a PostgreSQL that keeps `IsPostgres`, the invariant holds at every state that is reached
  -- from one where it holds, with any requests, goroutines and messages in any order.
  pub Run-Inv : {s s' : System} → Run d s s' → Inv d s → Inv d s'
  Run-Inv here i = i
  Run-Inv (next r st) i = (Step-sound st (Run-Inv r i)).1

  -- Over any run from a state where the invariant holds, on a PostgreSQL that keeps `IsPostgres`,
  -- each trip keeps its id, rider and places, its status never goes back, its driver stays from the
  -- assignment on and its start time from the start on; no row is lost, and the rows that are added
  -- are well formed.
  pub Run-Later :
      {s s' : System} → Run d s s' → Inv d s → Grows Later IsWellFormed (rows s) (rows s')
  Run-Later {s} here i = Grows-refl (rows s)
  Run-Later {s} {s'} (next {t} r st) i =
      Grows-Evolves (rows s) (rows t) (rows s') (Run-Later r i) (Step-sound st (Run-Inv r i)).0

  -- Over any run from a state where the invariant holds and the rows are well formed, on a
  -- PostgreSQL that keeps `IsPostgres`, the rows stay well formed: an assigned trip has a driver, a
  -- started one a start time, and a completed one a fare and a completion time.
  pub Run-IsWellFormed :
      {s s' : System}
      → Run d s s'
      → Inv d s
      → All IsWellFormed (rows s)
      → All IsWellFormed (rows s')
  Run-IsWellFormed here i h = h
  Run-IsWellFormed {s'} (next {t} r st) i h =
      All-Evolves (rows t) (rows s') (Run-IsWellFormed r i h) (Step-sound st (Run-Inv r i)).0
