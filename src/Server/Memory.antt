-- ===== src/Server/Memory.antt =====
-- The server on memory, before its first request.
use uber.Base.{String, none, some, [], err}
use uber.Auth.OneToken.{one_token}
use uber.Accounts.Memory.{accounts_memory, plain as unhashed}
use uber.Redis.Everywhere.{everywhere}
use uber.Tracking.Hub.{new_hub}
use uber.Tracking.Handler.{refused}
use uber.Trips.Memory.{whole, deps, ride, empty}
use uber.Users.Store.{user_row, user_columns}
use uber.Drivers.Store.{driver_row, driver_columns}
use uber.Server.Model.{ServerDeps, Server, Endpoint, Request}
use uber.Base.{◌∷◌}
use uber.Events.{RideRequestedEvent, DriverAssignedEvent}
use uber.Matching.Memory.{one_of_each}
use uber.Trips.Handler as Trips
use uber.Server.Model.{trips_at}
use uber.Server.Process.{Process}

abbrev pub parts : ServerDeps
parts = record {
  go = whole;
  jwt = one_token "rider";
  secret = "k";
  bcrypt = unhashed;
  user_sql = accounts_memory user_columns user_row;
  driver_sql = accounts_memory driver_columns driver_row;
  pg = deps.pg;
  redis = everywhere;
  broker = deps.broker;
  json = deps.json;
  parse_float = λ s. err "invalid syntax";
  decode_location = λ b. (record { lat = 12; lng = 77 }, none);
  user_decoders = record {
    decode_register = λ b.
        (record { name = "Ann"; email = "a@b.co"; phone = "+15550001"; password = "secret" }, none);
    decode_login = λ b. (record { email = "a@b.co"; password = "secret" }, none);
  };
  driver_decoders = record {
    decode_register = λ b. (
      record {
        name = "Bob";
        email = "b@b.co";
        phone = "+15550002";
        password = "secret";
        vehicle_type = "";
        license_plate = "AB 12";
      },
      none,
    );
    decode_login = λ b. (record { email = "b@b.co"; password = "secret" }, none);
  };
  trip_decoders = record {
    decode_request = λ b. (ride, none);
    decode_assign = λ b. (record { driver_id = "d1" }, none);
    decode_end = λ b. (record { distance_km = some 10; duration_seconds = none }, none);
  };
}

abbrev pub fresh : Server
fresh = record {
  users = record { rows = []; clock = 7; hidden = 0 };
  drivers = record {
    db = record { rows = []; clock = 7; hidden = 0 };
    geo = record { members = []; hidden = 0 };
  };
  trips = empty;
  hub = new_hub;
}

abbrev pub request_to : Endpoint → (authorization : String) → Request
request_to endpoint authorization = record {
  endpoint = endpoint;
  authorization = authorization;
  body = [];
  id = "u1";
  salt = 3;
  received = 500;
  now = 10;
  now' = 20;
  upgrade = refused 400 "Bad Request";
  spare = 1;
}

-- A rider, a driver, and the ride between them.
abbrev pub wanted : RideRequestedEvent
wanted = record {
  trip_id = "t1";
  rider_id = "u1";
  pickup = record { lat = 12; lng = 77 };
  drop = record { lat = 13; lng = 78 };
  requested_at = "2026-01-01T00:00:00Z";
}

abbrev pub taken : DriverAssignedEvent
taken = record { trip_id = "t1"; driver_id = "d1" }

abbrev pub talking : ServerDeps
talking = record parts {
  json = one_of_each wanted taken;
  decode_location = λ b. (record { lat = 90; lng = 180 }, none);
}

abbrev pub start : Process
start = record {
  server = record fresh {
    drivers = record fresh.drivers {
      geo = record {
        members = record { name = "d1"; longitude = 77; latitude = 12 } ∷ [];
        hidden = 0;
      };
    };
  };
  ends = [];
  sessions = [];
}

abbrev pub asks : Request
asks = record (request_to (trips_at Trips.post_request) "Bearer t") { id = "t1" }
