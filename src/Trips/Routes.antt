-- ===== src/Trips/Routes.antt =====
-- The endpoints of trips for any request: panics, and whose token it is.
use uber.Base.{ℕ, String, Time, Option, none, some, ◌≡◌, ◌≢◌, refl, arith, Result, ok, err}
use uber.Events.{Bytes}
use uber.Http.{panicked}
use uber.Auth.Tokens.{Claims}
use uber.Auth.Middleware.{require_auth}
use uber.Trips.Model.{Trip}
use uber.Trips.Service.{World, Deps, get_by_id, assign_driver, start, end}
use uber.Trips.Handler.{
  Decoders, Route, post_request, get_trip, patch_assign, patch_start, patch_end, answer,
  handle_request, handle_get_by_id, handle_assign, handle_start, handle_end, dispatch, routes,
}

answer-panicked : (failed : ℕ) (r : Result Trip) → answer failed r ≢ panicked
unfolding answer
answer-panicked failed (ok x) e = ground (arith)
answer-panicked failed (err x) e = ground (arith)

module _ (d : Deps) (dec : Decoders) where
  handle_request-panicked :
      (id : String) (now : Time) (body : Bytes) (c : Claims) (w : World)
      → (handle_request d dec id now body (some c) w).1 ≢ panicked
  unfolding handle_request
  handle_request-panicked id now body c w e = ground arith

  dispatch-panicked :
      (route : Route) (id : String) (now : Time) (body : Bytes) (c : Claims) (w : World)
      → (dispatch d dec route id now body (some c) w).1 ≢ panicked
  unfolding dispatch handle_get_by_id handle_assign handle_start handle_end
  dispatch-panicked post_request id now body c w e = handle_request-panicked id now body c w e
  dispatch-panicked (get_trip path) id now body c w e =
      answer-panicked 404 (get_by_id d path w.db) e
  dispatch-panicked (patch_assign path) id now body c w e =
      ground
        (arith, answer-panicked 400 (assign_driver d path (dec.decode_assign body).0.driver_id w).1)
  dispatch-panicked (patch_start path) id now body c w e =
      answer-panicked 400 (start d path now w).1 e
  dispatch-panicked (patch_end path) id now body c w e =
      answer-panicked 400 (end d path (dec.decode_end body).0.distance_km now w).1 e

  -- No request to an endpoint of trips panics, with or without claims in its context.
  pub routes-panicked :
      (route : Route) (id : String) (now : Time) (body : Bytes) (context : Option Claims)
      (w : World)
      → (routes d dec route id now body context w).1 ≢ panicked
  unfolding routes require_auth
  routes-panicked route id now body none w e = ground arith
  routes-panicked route id now body (some c) w e = dispatch-panicked route id now body c w e

  -- Apart from a request for a trip, an endpoint answers and acts alike for all claims: whoever has
  -- a token may read, assign, start or end any trip.
  pub routes_any_user :
      (route : Route) (id : String) (now : Time) (body : Bytes) (c c' : Claims) (w : World)
      → route ≢ post_request
      → routes d dec route id now body (some c) w ≡ routes d dec route id now body (some c') w
  unfolding routes require_auth dispatch handle_get_by_id handle_assign handle_start handle_end
  routes_any_user post_request id now body c c' w other = absurd (other refl)
  routes_any_user (get_trip path) id now body c c' w other = refl
  routes_any_user (patch_assign path) id now body c c' w other = refl
  routes_any_user (patch_start path) id now body c c' w other = refl
  routes_any_user (patch_end path) id now body c c' w other = refl
