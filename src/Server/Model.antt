-- ===== src/Server/Model.antt =====
-- ride-service/cmd/main.go: what the router is built from, the state that its handlers share, and a
-- request with all that its handler reads.
use uber.Base.{ℕ, String, Time, Float, Go, Option, Bool, true, false, Result}
use uber.Events.{Bytes, Json}
use uber.Redis.{Redis}
use uber.Kafka.{Broker}
use uber.Auth.Tokens.{GoJwt}
use uber.Accounts.Table.{AccountSql, Bcrypt}
use uber.Tracking.Hub.{Hub}
use uber.Tracking.Handler.{Upgrade}
use uber.Trips.Store.{Postgres}
use uber.Trips.Handler as Trips
use uber.Trips.Handler.{Decoders, Body}
use uber.Trips.Service.{World, Deps}
use uber.Users.Store.{UserRow, NewUser}
use uber.Users.Handler as Users
use uber.Users.Handler.{UserDecoders, UserBody}
use uber.Users.Service.{UserDb, UserDeps}
use uber.Drivers.Model.{LocationUpdate}
use uber.Drivers.Store.{DriverRow, NewDriver}
use uber.Drivers.Service.{DriverDeps}
use uber.Drivers.Handler.{DriverDecoders}
use uber.Drivers.Locations.{LocationDeps}
use uber.Drivers.Routes as Drivers
use uber.Drivers.Routes.{DriverState, DriverReply}

-- The libraries and servers that the three services are wired to.
pub record ServerDeps : Type 0 where
  pub go : Go
  pub jwt : GoJwt
  pub secret : String
  pub bcrypt : Bcrypt
  pub user_sql : AccountSql UserRow NewUser
  pub driver_sql : AccountSql DriverRow NewDriver
  pub pg : Postgres
  pub redis : Redis
  pub broker : Broker
  pub json : Json
  pub parse_float : String → Result Float
  pub decode_location : Bytes → LocationUpdate × Option String
  pub user_decoders : UserDecoders
  pub driver_decoders : DriverDecoders
  pub trip_decoders : Decoders

-- users.NewService, drivers.NewService, trips.NewService.
abbrev pub user_deps : ServerDeps → UserDeps
user_deps d = record {
  go = d.go;
  sql = d.user_sql;
  bcrypt = d.bcrypt;
  jwt = d.jwt;
  secret = d.secret;
}

abbrev pub driver_deps : ServerDeps → DriverDeps
driver_deps d = record {
  go = d.go;
  sql = d.driver_sql;
  bcrypt = d.bcrypt;
  jwt = d.jwt;
  secret = d.secret;
}

abbrev pub location_deps : ServerDeps → LocationDeps
location_deps d = record {
  go = d.go;
  redis = d.redis;
  decode_location = d.decode_location;
  parse_float = d.parse_float;
}

abbrev pub trip_deps : ServerDeps → Deps
trip_deps d = record { go = d.go; pg = d.pg; broker = d.broker; json = d.json }

pub record Server : Type 0 where
  pub users : UserDb
  pub drivers : DriverState
  pub trips : World
  pub hub : Hub

-- What the router has mounted.
pub data Endpoint : Type 0 where
  health : Endpoint
  users_at : Users.Route → Endpoint
  drivers_at : Drivers.Route → Endpoint
  trips_at : Trips.Route → Endpoint
  ws_trip_at : (id : String) → Endpoint

pub data Payload : Type 0 where
  user : UserBody → Payload
  driver : DriverReply → Payload
  trip : Body → Payload

-- A request, with the values that its handler takes from elsewhere while it runs: the new id, the
-- salt, the time of `Validate`, the two times of `Generate` (the first is also that of a trip),
-- what gorilla/websocket makes of it and the room in a grown slice.
pub record Request : Type 0 where
  pub endpoint : Endpoint
  pub authorization : String
  pub body : Bytes
  pub id : String
  pub salt : ℕ
  pub received : Time
  pub now : Time
  pub now' : Time
  pub upgrade : Upgrade
  pub spare : ℕ

-- The endpoints with "Bearer" in the column Auth of README.md.
abbrev pub is_protected : Endpoint → Bool
is_protected health = false
is_protected (users_at Users.post_register) = false
is_protected (users_at Users.post_login) = false
is_protected (users_at (Users.get_user_by_id id)) = true
is_protected (drivers_at Drivers.post_register) = false
is_protected (drivers_at Drivers.post_login) = false
is_protected (drivers_at (Drivers.get_nearby lat lng radius)) = true
is_protected (drivers_at (Drivers.get_driver_by_id id)) = true
is_protected (drivers_at (Drivers.patch_location id)) = true
is_protected (trips_at route) = true
is_protected (ws_trip_at id) = false
