-- ===== src/Trips/Results.antt =====
-- What the operations return, and what that says of the row.
use uber.Base.{
  ℕ, zero, suc, String, Time, some, true, false, List, ◌≡◌, refl, inl, inr, arith, Option-cases,
  ◌∙◌, Result, Result-cases, ok, err, ◌≢◌,
}
use uber.Trips.Model.{Trip, driver_assigned, started}
use uber.Trips.Store.{
  IsPostgres, Update, Db, status_test, selects, assign_columns, update_row, update_rows, affected,
  find, IsKeyed,
}
use uber.Trips.Rows.{find_same, find-update_rows, affected-find, update_rows_refused}
use uber.Trips.Written.{IsWritten, update_rows-IsWritten}
use uber.Trips.Lifecycle.{IsOpen}
use uber.Trips.Operations.{db-after_update}
use uber.Trips.Service.{
  World, Deps, get_by_id, assign_update, start_update, after_update, assign_driver, start,
}

module _ (d : Deps) (laws : IsPostgres d.pg) where
  after_update_inv :
      (m id : String) (w : World) (r : Db × Result ℕ) (t : Trip)
      → (after_update d m id w r).1 ≡ ok t
      → (n : ℕ) × (r.1 ≡ ok (suc n)) × (find d.pg id r.0.trips ≡ some t)
  unfolding after_update get_by_id
  after_update_inv m id w (db, err x) t e = cc
  after_update_inv m id w (db, ok zero) t e = cc
  after_update_inv m id w (db, ok (suc n)) t e = (n, refl, ground (arith, laws.query_ok id db t))

  -- A row that an update selects, as the lookup after it finds it.
  find_updated :
      (u : Update) (ts : List Trip) (t : Trip)
      → find d.pg u.where_id (update_rows d.pg u ts) ≡ some t
      → (r : Trip) × (find d.pg u.where_id ts ≡ some r) × (t ≡ update_row d.pg u r)
  find_updated u ts t e = elim (Option-cases (find d.pg u.where_id ts)) [
    | inl gone ↦ cc (e, gone, find-update_rows d.pg u u.where_id ts)
    | inr (r, found) ↦ (r, found, ground (arith, find-update_rows d.pg u u.where_id ts))
  ]

  status_test_of_affected :
      (u : Update) (ts : List Trip) (r : Trip) (n : ℕ)
      → IsKeyed d.pg ts
      → find d.pg u.where_id ts ≡ some r
      → suc n ≡ affected d.pg u ts
      → status_test u.where_status r.status ≡ true
  status_test_of_affected u ts r n k e a = ground (arith, affected-find d.pg laws u ts k)

  update_row_selected :
      (u : Update) (ts : List Trip) (r : Trip)
      → find d.pg u.where_id ts ≡ some r
      → status_test u.where_status r.status ≡ true
      → update_row d.pg u r ≡ assign_columns d.pg u r
  unfolding update_row selects
  update_row_selected u ts r e s = ground (arith, find_same d.pg u.where_id ts r)

  -- An update with its read that returns a trip: the row of the id passed the test, and the trip
  -- is that row with the columns set.
  after_update_ok :
      (m : String) (u : Update) (w : World) (t : Trip)
      → IsKeyed d.pg w.db.trips
      → (after_update d m u.where_id w (d.pg.exec_update u w.db)).1 ≡ ok t
      → (r : Trip) × (find d.pg u.where_id w.db.trips ≡ some r)
        × (status_test u.where_status r.status ≡ true)
        × (t ≡ assign_columns d.pg u r)
        × ((d.pg.exec_update u w.db).0.trips ≡ update_rows d.pg u w.db.trips)
        × IsWritten d.pg u.where_id w.db.trips t (d.pg.exec_update u w.db).0.trips
  after_update_ok m u w t k e =
      let (n, tag, after) = after_update_inv m u.where_id w (d.pg.exec_update u w.db) t e in
      let (done, count) = laws.update_ok u w.db (suc n) tag in
      let (r, found, row) = find_updated u w.db.trips t (rw done at after) in
      let passed = status_test_of_affected u w.db.trips r n k found count in
      (
        r,
        found,
        passed,
        row ∙ update_row_selected u w.db.trips r found passed,
        done,
        rw done (update_rows-IsWritten d.pg laws u w.db.trips t (rw done at after)),
      )

  -- An update of a trip in another status: no row changes, and an error is returned.
  after_update_refused :
      (m : String) (u : Update) (w : World) (r : Trip)
      → IsKeyed d.pg w.db.trips
      → find d.pg u.where_id w.db.trips ≡ some r
      → status_test u.where_status r.status ≡ false
      → ((after_update d m u.where_id w (d.pg.exec_update u w.db)).0.db.trips ≡ w.db.trips)
        × ((x : String) × ((after_update d m u.where_id w (d.pg.exec_update u w.db)).1 ≡ err x))
  after_update_refused m u w r k found refused = (
    rw db-after_update same,
    elim (Result-cases out) [
      | inl (t, e) ↦
          let (x, at, passed, _, _, _) = after_update_ok m u w t k e in
          absurd (ground (arith, at, found, passed, refused))
      | inr failed ↦ failed
    ],
  )
    where
      out : Result Trip
      out = (after_update d m u.where_id w (d.pg.exec_update u w.db)).1

      same : (d.pg.exec_update u w.db).0.trips ≡ w.db.trips
      same = elim (laws.update_atomic u w.db) [
        | inl kept ↦ kept
        | inr done ↦ done ∙ update_rows_refused d.pg laws u w.db.trips r k found refused
      ]

  -- On a PostgreSQL that keeps `IsPostgres`, with unique ids, `AssignDriver` returns a trip only
  -- for a row that is REQUESTED or MATCHING. The trip is that row with the driver and
  -- DRIVER_ASSIGNED set and all else as it was, and the statement took effect.
  pub assign_driver_ok :
      (trip driver : String) (w : World) (t : Trip)
      → IsKeyed d.pg w.db.trips
      → (assign_driver d trip driver w).1 ≡ ok t
      → (r : Trip) × (find d.pg trip w.db.trips ≡ some r)
        × IsOpen r.status
        × (t ≡ record r { driver_id = some (d.pg.uuid driver); status = driver_assigned })
        × ((assign_driver d trip driver w).0.db.trips
            ≡ update_rows d.pg (assign_update trip driver) w.db.trips)
        × IsWritten d.pg trip w.db.trips t (assign_driver d trip driver w).0.db.trips
  unfolding assign_driver assign_update
  assign_driver_ok trip driver w t k e =
      let (r, found, passed, row, done, written) =
        after_update_ok "trip not found or invalid state for assignment" (assign_update trip driver)
          w t k e in
      (
        r,
        found,
        ground arith,
        unfold assign_columns in row,
        rw db-after_update done,
        rw db-after_update written,
      )

  -- On a PostgreSQL that keeps `IsPostgres`, with unique ids, `AssignDriver` on a trip in any
  -- status but REQUESTED and MATCHING returns an error and changes no row.
  pub assign_driver_refused :
      (trip driver : String) (w : World) (r : Trip)
      → IsKeyed d.pg w.db.trips
      → find d.pg trip w.db.trips ≡ some r
      → ¬ IsOpen r.status
      → ((assign_driver d trip driver w).0.db.trips ≡ w.db.trips)
        × ((x : String) × ((assign_driver d trip driver w).1 ≡ err x))
  unfolding assign_driver assign_update
  assign_driver_refused trip driver w r k found shut =
      after_update_refused "trip not found or invalid state for assignment"
        (assign_update trip driver) w r k found (ground arith)

  -- On a PostgreSQL that keeps `IsPostgres`, with unique ids, `Start` returns a trip only for a row
  -- that is DRIVER_ASSIGNED. The trip is that row with STARTED and the start time set and all else
  -- as it was, and the statement took effect.
  pub start_ok :
      (trip : String) (now : Time) (w : World) (t : Trip)
      → IsKeyed d.pg w.db.trips
      → (start d trip now w).1 ≡ ok t
      → (r : Trip) × (find d.pg trip w.db.trips ≡ some r)
        × (r.status ≡ driver_assigned)
        × (t ≡ record r { status = started; started_at = some (d.pg.timestamp now) })
        × ((start d trip now w).0.db.trips ≡ update_rows d.pg (start_update trip now) w.db.trips)
        × IsWritten d.pg trip w.db.trips t (start d trip now w).0.db.trips
  unfolding start start_update
  start_ok trip now w t k e =
      let (r, found, passed, row, done, written) =
        after_update_ok "trip not found or not in DRIVER_ASSIGNED state" (start_update trip now) w t
          k e in
      (
        r,
        found,
        ground arith,
        unfold assign_columns in row,
        rw db-after_update done,
        rw db-after_update written,
      )

  -- On a PostgreSQL that keeps `IsPostgres`, with unique ids, `Start` on a trip in any status but
  -- DRIVER_ASSIGNED returns an error and changes no row.
  pub start_refused :
      (trip : String) (now : Time) (w : World) (r : Trip)
      → IsKeyed d.pg w.db.trips
      → find d.pg trip w.db.trips ≡ some r
      → r.status ≢ driver_assigned
      → ((start d trip now w).0.db.trips ≡ w.db.trips)
        × ((x : String) × ((start d trip now w).1 ≡ err x))
  unfolding start start_update
  start_refused trip now w r k found other =
      after_update_refused "trip not found or not in DRIVER_ASSIGNED state" (start_update trip now)
        w r k found (ground arith)
