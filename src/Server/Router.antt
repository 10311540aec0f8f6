-- ===== src/Server/Router.antt =====
-- The router of ride-service/cmd/main.go, below go-chi's own middleware (`Logger`, `Recoverer`,
-- `RealIP`), which is not in the repository.
use uber.Base.{none}
use uber.Http.{Reply, plain}
use uber.Auth.Middleware.{Next, optional_auth}
use uber.Auth.Part.{Part, lift}
use uber.Tracking.Hub.{Hub}
use uber.Tracking.Handler.{handle_ws}
use uber.Trips.Handler as Trips
use uber.Trips.Service.{World}
use uber.Users.Handler as Users
use uber.Users.Service.{UserDb}
use uber.Drivers.Routes as Drivers
use uber.Drivers.Routes.{DriverState}
use uber.Server.Model.{
  ServerDeps, user_deps, driver_deps, location_deps, trip_deps, Server, Endpoint, health, users_at,
  drivers_at, trips_at, ws_trip_at, Payload, user, driver, trip, Request,
}

abbrev pub users_part : Part Server UserDb
users_part = record { get = λ s. s.users; put = λ users s. record s { users = users } }

abbrev pub drivers_part : Part Server DriverState
drivers_part = record { get = λ s. s.drivers; put = λ drivers s. record s { drivers = drivers } }

abbrev pub trips_part : Part Server World
trips_part = record { get = λ s. s.trips; put = λ trips s. record s { trips = trips } }

abbrev pub hub_part : Part Server Hub
hub_part = record { get = λ s. s.hub; put = λ hub s. record s { hub = hub } }

module _ (d : ServerDeps) where
  -- What the router has mounted, given what the request's handler reads.
  unfoldable pub mounted : Endpoint → Request → Next Server Payload
  unfolding lift
  mounted health r = λ context s. (s, plain 200 "{\"status\":\"ok\",\"service\":\"ride-service\"}")
  mounted (users_at route) r =
      lift users_part user
        (Users.routes (user_deps d) d.user_decoders route r.id r.salt r.now r.now' r.body)
  mounted (drivers_at route) r = lift drivers_part driver (
      Drivers.routes (driver_deps d) d.driver_decoders (location_deps d) route r.id r.salt r.now
        r.now' r.body)
  mounted (trips_at route) r =
      lift trips_part trip (Trips.routes (trip_deps d) d.trip_decoders route r.id r.now r.body)
  mounted (ws_trip_at id) r = lift hub_part user (handle_ws r.upgrade r.spare id)

  -- The router with `OptionalAuth`.
  unfoldable pub serve : Request → Server → Server × Reply Payload
  unfolding mounted optional_auth
  serve r = optional_auth d.jwt d.secret r.received r.authorization (mounted r.endpoint r) none
