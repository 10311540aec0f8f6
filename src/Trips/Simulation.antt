-- ===== src/Trips/Simulation.antt =====
-- Requests to the endpoints of ride-service/internal/trips/handler.go, as steps of Trips.System.
use uber.Base.{
  String, Float, Time, Option, none, some, List, [], ◌≡◌, refl, arith, Option-cases, Result-cases,
  inl, inr, subst,
}
use uber.Events.{Bytes}
use uber.Auth.Tokens.{Claims}
use uber.Auth.Middleware.{require_auth}
use uber.Trips.Service.{World, Deps, end_check, end}
use uber.Trips.Handler.{
  Decoders, Route, post_request, get_trip, patch_assign, patch_start, patch_end, handle_request,
  handle_get_by_id, handle_assign, handle_start, handle_end, dispatch, routes,
}
use uber.Trips.System.{
  EndRun, System, Run, here, next, requests, assigns, starts, end_reads, end_writes,
}

-- A state of the service, with the Ends of other requests that are between their halves.
abbrev pub among : List EndRun → World → System
among ends w = record { world = w; ends = ends }

module _ (d : Deps) (ends : List EndRun) where
  -- A run up to an equal state.
  Run-to : (s : System) (w w' : World) → w ≡ w' → Run d s (among ends w) → Run d s (among ends w')
  Run-to s w w' same r = subst (λ v. Run d s (among ends v)) same r

  end-Run :
      (trip : String) (dist : Option Float) (now : Time) (w : World)
      → Run d (among ends w) (among ends (end d trip dist now w).0)
  unfolding end
  end-Run trip dist now w = elim (Result-cases (end_check d trip w.db)) [
    | inr (e, bad) ↦ Run-to _ _ _ (ground (arith, bad)) here
    | inl (t, good) ↦ Run-to _ _ _ (ground (arith, good)) (
        next (next here (end_reads trip dist t good refl))
          (end_writes [] (record { trip_id = trip; dist = dist; trip = t }) ends now refl refl))
  ]

  module _ (dec : Decoders) where
    handle_request-Run :
        (id : String) (now : Time) (body : Bytes) (c : Claims) (w : World)
        → Run d (among ends w) (among ends (handle_request d dec id now body (some c) w).0)
    unfolding handle_request
    handle_request-Run id now body c w = elim (Option-cases (dec.decode_request body).1) [
      | inr (e, bad) ↦ Run-to _ _ _ (ground (arith, bad)) here
      | inl good ↦
          Run-to _ _ _ (ground (arith, good))
            (next here (requests id now c.user_id (dec.decode_request body).0 refl))
    ]

    handle_assign-Run :
        (path : String) (body : Bytes) (c : Claims) (w : World)
        → Run d (among ends w) (among ends (handle_assign d dec path body (some c) w).0)
    unfolding handle_assign
    handle_assign-Run path body c w = elim (Option-cases (dec.decode_assign body).1) [
      | inr (e, bad) ↦ Run-to _ _ _ (ground (arith, bad)) here
      | inl good ↦
          Run-to _ _ _ (ground (arith, good))
            (next here (assigns path (dec.decode_assign body).0.driver_id refl))
    ]

    pub routes-Run :
        (route : Route) (id : String) (now : Time) (body : Bytes) (context : Option Claims)
        (w : World)
        → Run d (among ends w) (among ends (routes d dec route id now body context w).0)
    unfolding routes require_auth dispatch handle_get_by_id handle_start handle_end
    routes-Run route id now body none w = here
    routes-Run post_request id now body (some c) w = handle_request-Run id now body c w
    routes-Run (get_trip path) id now body (some c) w = here
    routes-Run (patch_assign path) id now body (some c) w = handle_assign-Run path body c w
    routes-Run (patch_start path) id now body (some c) w = next here (starts path now refl)
    routes-Run (patch_end path) id now body (some c) w =
        end-Run path (dec.decode_end body).0.distance_km now w
