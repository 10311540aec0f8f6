-- ===== src/Server/Every.antt =====
-- What every request to the server guarantees.
use uber.Base.{Option, ◌≢◌, refl, arith, String, ℕ, none}
use uber.Http.{Reply, panicked}
use uber.Auth.Tokens.{Claims}
use uber.Auth.Middleware.{add_claims, bearer, optional_auth}
use uber.Auth.Part.{lift, map_reply}
use uber.Trips.Routes as Trips
use uber.Users.Endpoints as Users
use uber.Drivers.Endpoints as Drivers
use uber.Tracking.Hub.{Hub}
use uber.Tracking.Handler.{handle_ws, Upgrade, refused, opened}
use uber.Server.Model.{
  ServerDeps, user_deps, driver_deps, location_deps, trip_deps, Server, Endpoint, health, users_at,
  drivers_at, trips_at, ws_trip_at, Request,
}
use uber.Server.Router.{mounted, serve}

map_reply-panicked :
    {B C : Type 0} (f : B → C) (r : Reply B) → r ≢ panicked → map_reply f r ≢ panicked
map_reply-panicked f (Reply.json status b) fine e = ground arith
map_reply-panicked f (Reply.plain status text) fine e = ground arith
map_reply-panicked f Reply.hijacked fine e = ground arith
map_reply-panicked f panicked fine e = absurd (fine refl)

handle_ws-panicked :
    {B : Type 0} (u : Upgrade) (spare : ℕ) (trip : String) (context : Option Claims) (h : Hub)
    → (handle_ws {B = B} u spare trip context h).1 ≢ panicked
unfolding handle_ws
handle_ws-panicked (refused status text) spare trip c h e = ground arith
handle_ws-panicked (opened conn) spare trip c h e = ground arith

module _ (d : ServerDeps) where
  mounted-panicked :
      (e : Endpoint) (r : Request) (context : Option Claims) (s : Server)
      → (mounted d e r context s).1 ≢ panicked
  unfolding mounted lift
  mounted-panicked health r c s = λ e. ground arith
  mounted-panicked (users_at route) r c s = map_reply-panicked _ _ (
      Users.routes-panicked (user_deps d) d.user_decoders route r.id r.salt r.now r.now' r.body c
        s.users)
  mounted-panicked (drivers_at route) r c s = map_reply-panicked _ _ (
      Drivers.routes-panicked (driver_deps d) d.driver_decoders (location_deps d) route r.id r.salt
        r.now r.now' r.body c s.drivers)
  mounted-panicked (trips_at route) r c s =
      map_reply-panicked _ _
        (Trips.routes-panicked (trip_deps d) d.trip_decoders route r.id r.now r.body c s.trips)
  mounted-panicked (ws_trip_at id) r c s =
      map_reply-panicked _ _ (handle_ws-panicked r.upgrade r.spare id c s.hub)

  -- No handler panics, whatever the request.
  pub serve-panicked : (r : Request) (s : Server) → (serve d r s).1 ≢ panicked
  unfolding serve optional_auth
  serve-panicked r s =
      mounted-panicked r.endpoint r
        (add_claims d.jwt d.secret r.received (bearer r.authorization) none) s
