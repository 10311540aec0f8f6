-- ===== src/Trips/Handler.antt =====
-- ride-service/internal/trips/handler.go: the endpoints, as functions from a decoded request to the
-- state and a reply. The path's id, `uuid.New()` and `time.Now()` are arguments, and what
-- encoding/json makes of a body is the parameter `Decoders`.
use uber.Base.{ℕ, String, Time, Option, none, some, Result, ok, err}
use uber.Events.{Bytes}
use uber.Http.{Reply, json, panicked}
use uber.Auth.Middleware.{Next, require_auth}
use uber.Trips.Model.{TripStatus, Trip, TripRequest, AssignRequest, EndRequest}
use uber.Trips.Service.{World, Deps, get_by_id, request, assign_driver, start, end}

-- What `Decode` has put into the variable, and its error. With an error some fields may be set.
pub record Decoders : Type 0 where
  pub decode_request : Bytes → TripRequest × Option String
  pub decode_assign : Bytes → AssignRequest × Option String
  pub decode_end : Bytes → EndRequest × Option String

-- The values that `writeJSON` is called with.
pub data Body : Type 0 where
  error : String → Body
  created : (trip_id : String) → TripStatus → Body
  trip : Trip → Body

-- The endpoints, with the id of the path.
pub data Route : Type 0 where
  post_request : Route
  get_trip : (id : String) → Route
  patch_assign : (id : String) → Route
  patch_start : (id : String) → Route
  patch_end : (id : String) → Route

-- An error of the service as a reply, or the trip.
unfoldable pub answer : (failed : ℕ) → Result Trip → Reply Body
answer failed (err e) = json failed (error e)
answer failed (ok t) = json 200 (trip t)

module _ (d : Deps) (dec : Decoders) where
  -- The claims are read behind a nil pointer if there are none.
  unfoldable pub handle_request : (id : String) (now : Time) → Bytes → Next World Body
  handle_request id now body claims w =
      let (req, failed) = dec.decode_request body in
      elim failed [
        | some e ↦ (w, json 400 (error "invalid body"))
        | none ↦ elim claims [
          | none ↦ (w, panicked)
          | some c ↦
              let (w', made) = request d id now c.user_id req w in
              (
                w',
                elim made [ err e ↦ json 500 (error e) | ok t ↦ json 201 (created t.id t.status) ],
              )
        ]
      ]

  unfoldable pub handle_get_by_id : (path_id : String) → Next World Body
  unfolding answer
  handle_get_by_id path_id claims w = (w, answer 404 (get_by_id d path_id w.db))

  unfoldable pub handle_assign : (path_id : String) → Bytes → Next World Body
  unfolding answer
  handle_assign path_id body claims w =
      let (req, failed) = dec.decode_assign body in
      elim failed [
        | some e ↦ (w, json 400 (error "invalid body"))
        | none ↦ let (w', made) = assign_driver d path_id req.driver_id w in (w', answer 400 made)
      ]

  unfoldable pub handle_start : (path_id : String) (now : Time) → Next World Body
  unfolding answer
  handle_start path_id now claims w =
      let (w', made) = start d path_id now w in (w', answer 400 made)

  -- The error of the decoder is dropped.
  unfoldable pub handle_end : (path_id : String) (now : Time) → Bytes → Next World Body
  unfolding answer
  handle_end path_id now body claims w =
      let (req, _) = dec.decode_end body in
      let (w', made) = end d path_id req.distance_km now w in (w', answer 400 made)

  -- `Routes` below its middleware.
  unfoldable pub dispatch : Route → (id : String) (now : Time) → Bytes → Next World Body
  dispatch post_request id now body = handle_request id now body
  dispatch (get_trip path_id) id now body = handle_get_by_id path_id
  dispatch (patch_assign path_id) id now body = handle_assign path_id body
  dispatch (patch_start path_id) id now body = handle_start path_id now
  dispatch (patch_end path_id) id now body = handle_end path_id now body

  unfoldable pub routes : Route → (id : String) (now : Time) → Bytes → Next World Body
  routes route id now body = require_auth (dispatch route id now body)
