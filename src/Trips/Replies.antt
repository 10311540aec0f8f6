-- ===== src/Trips/Replies.antt =====
-- What the endpoints of trips have done where they answer 200 or 201.
use uber.Base.{
  ℕ, String, Float, Time, Option, none, some, true, [], ◌∷◌, ◌++◌, ◌≡◌, arith, Result, Result-cases,
  Option-cases, inl, inr, ok, err, ap, sym, ◌∙◌,
}
use uber.Events.{Bytes}
use uber.Http.{json}
use uber.Auth.Tokens.{Claims}
use uber.Auth.Middleware.{require_auth}
use uber.Trips.Model.{Trip, TripRequest, TripStatus, requested, driver_assigned, started}
use uber.Trips.Store.{IsPostgres, IsKeyed, find}
use uber.Trips.Written.{IsWritten, kept-IsWritten}
use uber.Trips.Lifecycle.{IsOpen}
use uber.Trips.Results.{assign_driver_ok, start_ok}
use uber.Trips.Ending.{Charged, ended, end_ok, end-IsWritten}
use uber.Trips.Requesting.{request_ok}
use uber.Trips.Service.{World, Deps, get_by_id, request, assign_driver, start, end}
use uber.Trips.Handler.{
  Decoders, created, trip, Route, post_request, get_trip, patch_assign, patch_start, patch_end,
  answer, handle_request, handle_get_by_id, handle_assign, handle_start, handle_end, dispatch,
  routes,
}

abbrev pub path_id : Route → String
path_id post_request = ""
path_id (get_trip id) = id
path_id (patch_assign id) = id
path_id (patch_start id) = id
path_id (patch_end id) = id

answer_ok :
    (failed : ℕ) (r : Result Trip) (t : Trip) → answer failed r ≡ json 200 (trip t) → r ≡ ok t
unfolding answer
answer_ok failed (ok x) t e = ground (arith)
answer_ok failed (err x) t e = ground (arith)

module _ (d : Deps) (dec : Decoders) where
  -- What a 200 says of a trip: the row that the request found, and the trip in the reply.
  pub data Answered (now : Time) (body : Bytes) : Route → Trip → Trip → Type 0 where
    looked : {id : String} {r : Trip} → Answered now body (get_trip id) r r
    assigned :
        {id : String} {r t : Trip} (driver : String)
        → dec.decode_assign body ≡ (record { driver_id = driver }, none)
        → IsOpen r.status
        → t ≡ record r { driver_id = some (d.pg.uuid driver); status = driver_assigned }
        → Answered now body (patch_assign id) r t
    begun :
        {id : String} {r t : Trip}
        → r.status ≡ driver_assigned
        → t ≡ record r { status = started; started_at = some (d.pg.timestamp now) }
        → Answered now body (patch_start id) r t
    finished :
        {id : String} {r t : Trip} (km : Float)
        → r.status ≡ started
        → Charged d r (dec.decode_end body).0.distance_km km
        → t ≡ ended d r km now
        → Answered now body (patch_end id) r t

  handle_request_200 :
      (id : String) (now : Time) (body : Bytes) (context : Option Claims) (w : World) (t : Trip)
      → ¬ ((handle_request d dec id now body context w).1 ≡ json 200 (trip t))
  unfolding handle_request
  handle_request_200 id now body none w t e = ground arith
  handle_request_200 id now body (some c) w t e = ground arith

  handle_assign_200 :
      (path : String) (body : Bytes) (context : Option Claims) (w : World) (t : Trip)
      → (handle_assign d dec path body context w).1 ≡ json 200 (trip t)
      → (driver : String) × (dec.decode_assign body ≡ (record { driver_id = driver }, none))
        × ((assign_driver d path driver w).1 ≡ ok t)
        × ((handle_assign d dec path body context w).0 ≡ (assign_driver d path driver w).0)
  unfolding handle_assign
  handle_assign_200 path body context w t e = elim (Option-cases (dec.decode_assign body).1) [
    | inr (x, failed) ↦ absurd (ground (arith, failed))
    | inl decoded ↦
        let driver = (dec.decode_assign body).0.driver_id in
        let replied : answer 400 (assign_driver d path driver w).1 ≡ json 200 (trip t) =
          ground (arith, decoded) in
        (
          driver,
          cc decoded,
          answer_ok 400 (assign_driver d path driver w).1 t replied,
          ground (arith, decoded),
        )
  ]

  module _ (laws : IsPostgres d.pg) where
    get_200 :
        (path : String) (w : World) (t : Trip)
        → answer 404 (get_by_id d path w.db) ≡ json 200 (trip t)
        → find d.pg path w.db.trips ≡ some t
    unfolding get_by_id answer
    get_200 path w t e = ground (arith, laws.query_ok path w.db t)

    dispatch_200 :
        (route : Route) (id : String) (now : Time) (body : Bytes) (context : Option Claims)
        (w : World) (t : Trip)
        → IsKeyed d.pg w.db.trips
        → (dispatch d dec route id now body context w).1 ≡ json 200 (trip t)
        → (r : Trip) × (find d.pg (path_id route) w.db.trips ≡ some r)
          × Answered now body route r t
          × IsWritten d.pg
              (path_id route)
              w.db.trips
              t
              (dispatch d dec route id now body context w).0.db.trips
    unfolding dispatch handle_get_by_id handle_start handle_end
    dispatch_200 post_request id now body context w t keyed e =
        absurd (handle_request_200 id now body context w t e)
    dispatch_200 (get_trip path) id now body context w t keyed e =
        let found = get_200 path w t e in
        (t, found, looked, kept-IsWritten d.pg laws path w.db.trips t found)
    dispatch_200 (patch_assign path) id now body context w t keyed e =
        let (driver, decoded, done, after) = handle_assign_200 path body context w t e in
        let (r, found, open_, same, _, written) =
          assign_driver_ok d laws path driver w t keyed done in
        (r, found, assigned driver decoded open_ same, rw after written)
    dispatch_200 (patch_start path) id now body context w t keyed e =
        let done = answer_ok 400 (start d path now w).1 t e in
        let (r, found, ready, same, _, written) = start_ok d laws path now w t keyed done in
        (r, found, begun ready same, written)
    dispatch_200 (patch_end path) id now body context w t keyed e =
        let dist = (dec.decode_end body).0.distance_km in
        let done = answer_ok 400 (end d path dist now w).1 t e in
        let (r, km, found, riding, charged, same, _) = end_ok d laws path dist now w t done in
        (r, found, finished km riding charged same, end-IsWritten d laws path dist now w t done)

    -- An endpoint that answers 200 with a trip, on a PostgreSQL that keeps `IsPostgres`, with
    -- unique ids: it is the row of the path's id as it is, or an open trip with the driver of the
    -- body as a UUID column gives him back, or an assigned trip that has started now, or a started
    -- trip that is completed and charged for the distance that the decoder left, or else the
    -- great-circle distance. Afterwards the lookup of the path's id finds the trip of the reply in
    -- the table, and every other lookup what it found before.
    pub routes_200 :
        (route : Route) (id : String) (now : Time) (body : Bytes) (context : Option Claims)
        (w : World) (t : Trip)
        → IsKeyed d.pg w.db.trips
        → (routes d dec route id now body context w).1 ≡ json 200 (trip t)
        → (r : Trip) × (find d.pg (path_id route) w.db.trips ≡ some r)
          × Answered now body route r t
          × IsWritten d.pg
              (path_id route)
              w.db.trips
              t
              (routes d dec route id now body context w).0.db.trips
    unfolding routes require_auth
    routes_200 route id now body none w t keyed e = absurd (ground arith)
    routes_200 route id now body (some c) w t keyed e =
        dispatch_200 route id now body (some c) w t keyed e

    request_fields :
        (id : String) (now : Time) (rider : String) (req : TripRequest) (w : World) (t : Trip)
        → (request d id now rider req w).1 ≡ ok t
        → (t.id ≡ id) × (t.rider_id ≡ rider)
    unfolding request
    request_fields id now rider req w t e = ground arith

    pub create_inv :
        (id s_id : String) (s : TripStatus) (now : Time) (body : Bytes) (c : Claims) (w : World)
        → (handle_request d dec id now body (some c) w).1 ≡ json 201 (created s_id s)
        → let req = (dec.decode_request body).0 in
          ((dec.decode_request body).1 ≡ none)
          × ((t : Trip) × ((request d id now c.user_id req w).1 ≡ ok t)
              × (t.id ≡ s_id)
              × (t.status ≡ s))
          × ((handle_request d dec id now body (some c) w).0 ≡ (request d id now c.user_id req w).0)
    unfolding handle_request
    create_inv id s_id s now body c w e =
        let req = (dec.decode_request body).0 in
        elim (Option-cases (dec.decode_request body).1) [
          | inr (x, failed) ↦ absurd (ground (arith, failed))
          | inl decoded ↦ elim (Result-cases (request d id now c.user_id req w).1) [
            | inr (x, refused) ↦ absurd (ground (arith, decoded, refused))
            | inl (t, made) ↦ (
              decoded,
              (t, made, ground (arith, decoded, made), ground (arith, decoded, made)),
              ground (arith, decoded),
            )
          ]
        ]

    -- An answer 201 to the user with the claims `c`, on a PostgreSQL that keeps `IsPostgres` and an
    -- id that equals itself: the body was decoded, and one row was added, REQUESTED by that user,
    -- with the id and the status of the reply.
    pub routes_201 :
        (id s_id : String) (s : TripStatus) (now : Time) (body : Bytes) (c : Claims) (w : World)
        → d.pg.same_uuid id id ≡ true
        → (routes d dec post_request id now body (some c) w).1 ≡ json 201 (created s_id s)
        → ((dec.decode_request body).1 ≡ none)
          × (row : Trip) × ((routes d dec post_request id now body (some c) w).0.db.trips
              ≡ w.db.trips ++ row ∷ [])
          × (row.id ≡ s_id)
          × (row.rider_id ≡ c.user_id)
          × (row.status ≡ s)
          × (s ≡ requested)
    unfolding routes require_auth dispatch
    routes_201 id s_id s now body c w same e =
        let req = (dec.decode_request body).0 in
        let (decoded, (t, made, ids, statuses), after) = create_inv id s_id s now body c w e in
        let (is_id, rider) = request_fields id now c.user_id req w t made in
        let (row, rows, _, is, _, open_, _) =
          request_ok d laws id now c.user_id req w t same made in
        (
          decoded,
          row,
          rw after rows,
          ap Trip.id is ∙ ids,
          ap Trip.rider_id is ∙ rider,
          ap Trip.status is ∙ statuses,
          sym statuses ∙ ap Trip.status open_,
        )
