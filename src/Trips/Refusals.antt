-- ===== src/Trips/Refusals.antt =====
-- What the endpoints of trips answer where the trip is in another status.
use uber.Base.{String, Time, some, ◌≡◌, arith, Result, Option-cases, inl, inr, ap}
use uber.Events.{Bytes}
use uber.Http.{Reply, json}
use uber.Auth.Tokens.{Claims}
use uber.Auth.Middleware.{require_auth}
use uber.Trips.Model.{Trip, TripStatus, driver_assigned, started}
use uber.Trips.Store.{IsPostgres, IsKeyed, find}
use uber.Trips.Lifecycle.{IsOpen}
use uber.Trips.Results.{assign_driver_refused, start_refused}
use uber.Trips.Ending.{end_refused}
use uber.Trips.Service.{World, Deps}
use uber.Trips.Handler.{
  Decoders, Body, error, Route, post_request, get_trip, patch_assign, patch_start, patch_end,
  answer, handle_assign, handle_start, handle_end, dispatch, routes,
}
use uber.Trips.Replies.{path_id}

-- The statuses in which a trip can be assigned, started, ended; it can be read in any.
abbrev pub Accepts : Route → TripStatus → Type 0
Accepts post_request s = Unit
Accepts (get_trip id) s = Unit
Accepts (patch_assign id) s = IsOpen s
Accepts (patch_start id) s = s ≡ driver_assigned
Accepts (patch_end id) s = s ≡ started

-- An answer 400 that has changed no row.
abbrev pub IsRefusal : World → World × Reply Body → Type 0
IsRefusal w out = (out.0.db.trips ≡ w.db.trips) × ((x : String) × (out.1 ≡ json 400 (error x)))

module _ (d : Deps) (dec : Decoders) (laws : IsPostgres d.pg) where
  -- With unique ids, on a PostgreSQL that keeps `IsPostgres`: a request with a token to assign, to
  -- start or to end a trip that is there, in a status that does not allow it, is answered 400, and
  -- no row changes.
  pub routes_refused :
      (route : Route) (id : String) (now : Time) (body : Bytes) (c : Claims) (w : World) (r : Trip)
      → IsKeyed d.pg w.db.trips
      → find d.pg (path_id route) w.db.trips ≡ some r
      → ¬ Accepts route r.status
      → IsRefusal w (routes d dec route id now body (some c) w)
  unfolding routes require_auth dispatch handle_assign handle_start handle_end answer
  routes_refused post_request id now body c w r keyed found shut = absurd (shut tt)
  routes_refused (get_trip path) id now body c w r keyed found shut = absurd (shut tt)
  routes_refused (patch_assign path) id now body c w r keyed found shut =
      elim (Option-cases (dec.decode_assign body).1) [
        | inr (x, failed) ↦ (ground (arith, failed), ("invalid body", ground (arith, failed)))
        | inl decoded ↦
            let (same, (x, bad)) =
              assign_driver_refused d laws path (dec.decode_assign body).0.driver_id w r keyed found
                shut in
            (ground (arith, decoded, same), (x, ground (arith, decoded, bad)))
      ]
  routes_refused (patch_start path) id now body c w r keyed found shut =
      let (same, (x, bad)) = start_refused d laws path now w r keyed found shut in
      (same, (x, ap (answer 400) bad))
  routes_refused (patch_end path) id now body c w r keyed found shut =
      let (x, bad) =
        end_refused d laws path (dec.decode_end body).0.distance_km now w r found shut in
      (ap (λ (out : World × Result Trip). out.0.db.trips) bad, (x, ground (arith, bad)))
