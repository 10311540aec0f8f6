-- ===== src/Trips/Requesting.antt =====
-- `Request`: the row that it adds, what it returns and what it publishes.
use uber.Base.{ℕ, String, Time, none, some, true, List, [], ◌∷◌, ◌++◌, ◌≡◌, arith, ok}
use uber.Trips.Model.{Trip, TripRequest, requested}
use uber.Trips.Store.{IsPostgres, Db, inserted, IsNewId}
use uber.Trips.Rows.{find-append_new}
use uber.Trips.Operations.{db-request}
use uber.Trips.Service.{World, Deps, publish_requested, get_by_id, new_trip, request}

-- The trip that a rider asks for.
abbrev pub asked : (id : String) (now : Time) (rider : String) → TripRequest → Trip
asked id now rider req = record {
  id = id;
  rider_id = rider;
  driver_id = none;
  pickup_lat = req.pickup_lat;
  pickup_lng = req.pickup_lng;
  drop_lat = req.drop_lat;
  drop_lng = req.drop_lng;
  fare = none;
  status = requested;
  requested_at = some now;
  started_at = none;
  completed_at = none;
  created_at = now;
}

module _ (d : Deps) (laws : IsPostgres d.pg) where
  read_back :
      (id : String) (db : Db) (ts : List Trip) (row r : Trip)
      → IsNewId d.pg id ts
      → d.pg.same_uuid id row.id ≡ true
      → db.trips ≡ ts ++ row ∷ []
      → get_by_id d id db ≡ ok r
      → r ≡ row
  unfolding get_by_id
  read_back id db ts row r new same added read =
      ground (arith, laws.query_ok id db r, find-append_new d.pg id ts row new same)

  request_inv :
      (id : String) (now : Time) (rider : String) (req : TripRequest) (w : World) (t : Trip)
      → (request d id now rider req w).1 ≡ ok t
      → (k : ℕ) × ((d.pg.exec_insert (new_trip id now rider req) w.db).1 ≡ ok k)
  unfolding request
  request_inv id now rider req w t e = ground arith

  -- On a PostgreSQL that keeps `IsPostgres`, `Request` with an id that equals itself and that
  -- returns a trip has added one row at the end, of a new id. The trip is REQUESTED by the rider
  -- with the places of the request and no driver or fare, and it is that row but for the times,
  -- which the table keeps as TIMESTAMPTZ, and `GetByID` of its id can only answer with that row.
  -- One goroutine was started, which publishes the trip's id, rider and places.
  pub request_ok :
      (id : String) (now : Time) (rider : String) (req : TripRequest) (w : World) (t : Trip)
      → d.pg.same_uuid id id ≡ true
      → (request d id now rider req w).1 ≡ ok t
      → let w' = (request d id now rider req w).0 in
        (row : Trip) × (w'.db.trips ≡ w.db.trips ++ row ∷ [])
        × IsNewId d.pg id w.db.trips
        × (row ≡ record t {
          requested_at = some (d.pg.timestamp now);
          created_at = d.pg.timestamp w.db.clock;
        })
        × ((r : Trip) → get_by_id d id w'.db ≡ ok r → r ≡ row)
        × (t ≡ asked id now rider req)
        × (w'.jobs
            ≡ publish_requested (record {
              trip_id = id;
              rider_id = rider;
              pickup = record { lat = req.pickup_lat; lng = req.pickup_lng };
              drop = record { lat = req.drop_lat; lng = req.drop_lng };
              requested_at = d.go.rfc3339 now;
            })
              ∷ w.jobs)
  unfolding request new_trip inserted get_by_id
  request_ok id now rider req w t self e =
      let (k, tag) = request_inv id now rider req w t e in
      let (added, new) = laws.insert_ok (new_trip id now rider req) w.db k tag in
      let row = inserted d.pg (new_trip id now rider req) w.db.clock in
      (
        row,
        rw db-request added,
        new,
        ground arith,
        λ r read.
            read_back id (request d id now rider req w).0.db w.db.trips row r new self
              (rw db-request added) read,
        ground arith,
        ground arith,
      )
