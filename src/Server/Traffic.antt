-- ===== src/Server/Traffic.antt =====
-- The requests that the server gets (ride-service/cmd/main.go), as steps of Trips.System.
use uber.Base.{Option, List, none}
use uber.Auth.Tokens.{Claims}
use uber.Auth.Middleware.{add_claims, bearer, optional_auth}
use uber.Auth.Part.{lift}
use uber.Trips.System.{EndRun, Run, here}
use uber.Trips.Simulation.{among, routes-Run}
use uber.Server.Model.{
  ServerDeps, trip_deps, Server, Endpoint, health, users_at, drivers_at, trips_at, ws_trip_at,
  Request,
}
use uber.Server.Router.{mounted, serve}

module _ (d : ServerDeps) (ends : List EndRun) where
  mounted-Run :
      (e : Endpoint) (r : Request) (context : Option Claims) (s : Server)
      → Run (trip_deps d) (among ends s.trips) (among ends (mounted d e r context s).0.trips)
  unfolding mounted lift
  mounted-Run health r context s = here
  mounted-Run (users_at route) r context s = here
  mounted-Run (drivers_at route) r context s = here
  mounted-Run (trips_at route) r context s =
      routes-Run (trip_deps d) ends d.trip_decoders route r.id r.now r.body context s.trips
  mounted-Run (ws_trip_at id) r context s = here

  pub serve-Run :
      (r : Request) (s : Server)
      → Run (trip_deps d) (among ends s.trips) (among ends (serve d r s).0.trips)
  unfolding serve optional_auth
  serve-Run r s =
      mounted-Run r.endpoint r (add_claims d.jwt d.secret r.received (bearer r.authorization) none)
        s
