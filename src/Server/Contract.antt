-- ===== src/Server/Contract.antt =====
-- What each endpoint answers (README.md and the handlers' `writeJSON` calls): which status goes
-- with which value.
use text.Mathlib.Text.{◌==◌}
use uber.Base.{ℕ, String, Bool, true, false, ◌&&◌, ◌||◌, eqb}
use uber.Http.{Reply, json, plain, hijacked, panicked}
use uber.Users.Handler as Users
use uber.Users.Handler.{UserBody}
use uber.Drivers.Handler.{DriverBody}
use uber.Drivers.Locations.{LocationBody}
use uber.Drivers.Routes as Drivers
use uber.Drivers.Routes.{DriverReply, account, location}
use uber.Trips.Handler as Trips
use uber.Trips.Handler.{Body}
use uber.Server.Model.{
  Endpoint, health, users_at, drivers_at, trips_at, ws_trip_at, Payload, user, driver, trip,
}

-- The reply of `RequireAuth`.
abbrev pub is_unauthorized : ℕ → String → Bool
is_unauthorized status text = eqb status 401 && text == "{\"error\":\"unauthorized\"}"

abbrev pub user_answer : Users.Route → ℕ → UserBody → Bool
user_answer Users.post_register s (UserBody.error e) = eqb s 400 || eqb s 409
user_answer Users.post_register s (UserBody.welcome resp) = eqb s 201
user_answer Users.post_register s (UserBody.profile u) = false
user_answer Users.post_login s (UserBody.error e) = eqb s 400 || eqb s 401
user_answer Users.post_login s (UserBody.welcome resp) = eqb s 200
user_answer Users.post_login s (UserBody.profile u) = false
user_answer (Users.get_user_by_id id) s (UserBody.error e) = eqb s 404
user_answer (Users.get_user_by_id id) s (UserBody.welcome resp) = false
user_answer (Users.get_user_by_id id) s (UserBody.profile u) = eqb s 200

abbrev pub driver_answer : Drivers.Route → ℕ → DriverReply → Bool
driver_answer Drivers.post_register s (account (DriverBody.error e)) = eqb s 400 || eqb s 409
driver_answer Drivers.post_register s (account (DriverBody.welcome resp)) = eqb s 201
driver_answer Drivers.post_register s (account (DriverBody.profile u)) = false
driver_answer Drivers.post_register s (location b) = false
driver_answer Drivers.post_login s (account (DriverBody.error e)) = eqb s 400 || eqb s 401
driver_answer Drivers.post_login s (account (DriverBody.welcome resp)) = eqb s 200
driver_answer Drivers.post_login s (account (DriverBody.profile u)) = false
driver_answer Drivers.post_login s (location b) = false
driver_answer (Drivers.get_nearby lat lng radius) s (account b) = false
driver_answer (Drivers.get_nearby lat lng radius) s (location (LocationBody.error e)) =
    eqb s 400 || eqb s 500
driver_answer (Drivers.get_nearby lat lng radius) s (location (LocationBody.status text)) = false
driver_answer (Drivers.get_nearby lat lng radius) s (location (LocationBody.drivers ids)) =
    eqb s 200
driver_answer (Drivers.get_driver_by_id id) s (account (DriverBody.error e)) = eqb s 404
driver_answer (Drivers.get_driver_by_id id) s (account (DriverBody.welcome resp)) = false
driver_answer (Drivers.get_driver_by_id id) s (account (DriverBody.profile u)) = eqb s 200
driver_answer (Drivers.get_driver_by_id id) s (location b) = false
driver_answer (Drivers.patch_location id) s (account b) = false
driver_answer (Drivers.patch_location id) s (location (LocationBody.error e)) =
    eqb s 400 || eqb s 500
driver_answer (Drivers.patch_location id) s (location (LocationBody.status text)) =
    eqb s 200 && text == "location_updated"
driver_answer (Drivers.patch_location id) s (location (LocationBody.drivers ids)) = false

abbrev pub trip_answer : Trips.Route → ℕ → Body → Bool
trip_answer Trips.post_request s (Body.error e) = eqb s 400 || eqb s 500
trip_answer Trips.post_request s (Body.created id status) = eqb s 201
trip_answer Trips.post_request s (Body.trip t) = false
trip_answer (Trips.get_trip id) s (Body.error e) = eqb s 404
trip_answer (Trips.get_trip id) s (Body.created id' status) = false
trip_answer (Trips.get_trip id) s (Body.trip t) = eqb s 200
trip_answer (Trips.patch_assign id) s (Body.error e) = eqb s 400
trip_answer (Trips.patch_assign id) s (Body.created id' status) = false
trip_answer (Trips.patch_assign id) s (Body.trip t) = eqb s 200
trip_answer (Trips.patch_start id) s (Body.error e) = eqb s 400
trip_answer (Trips.patch_start id) s (Body.created id' status) = false
trip_answer (Trips.patch_start id) s (Body.trip t) = eqb s 200
trip_answer (Trips.patch_end id) s (Body.error e) = eqb s 400
trip_answer (Trips.patch_end id) s (Body.created id' status) = false
trip_answer (Trips.patch_end id) s (Body.trip t) = eqb s 200

-- A reply with a value of one component, or the one of `RequireAuth` where it stands before.
abbrev pub value_fits : {B : Type 0} → (guarded : Bool) → (ℕ → B → Bool) → Reply B → Bool
value_fits guarded answer (json s b) = answer s b
value_fits guarded answer (plain s text) = guarded && is_unauthorized s text
value_fits guarded answer hijacked = false
value_fits guarded answer panicked = false

abbrev pub is_guarded_user : Users.Route → Bool
is_guarded_user Users.post_register = false
is_guarded_user Users.post_login = false
is_guarded_user (Users.get_user_by_id id) = true

abbrev pub is_guarded_driver : Drivers.Route → Bool
is_guarded_driver Drivers.post_register = false
is_guarded_driver Drivers.post_login = false
is_guarded_driver (Drivers.get_nearby lat lng radius) = true
is_guarded_driver (Drivers.get_driver_by_id id) = true
is_guarded_driver (Drivers.patch_location id) = true

abbrev pub payload_answer : Endpoint → ℕ → Payload → Bool
payload_answer (users_at route) s (user b) = user_answer route s b
payload_answer (drivers_at route) s (driver b) = driver_answer route s b
payload_answer (trips_at route) s (trip b) = trip_answer route s b
payload_answer e s b = false

-- An upgrade that gorilla/websocket refuses is answered as it likes.
abbrev pub fits : Endpoint → Reply Payload → Bool
fits health (plain s text) = eqb s 200 && text == "{\"status\":\"ok\",\"service\":\"ride-service\"}"
fits health r = false
fits (users_at route) r = value_fits (is_guarded_user route) (payload_answer (users_at route)) r
fits (drivers_at route) r =
    value_fits (is_guarded_driver route) (payload_answer (drivers_at route)) r
fits (trips_at route) r = value_fits true (payload_answer (trips_at route)) r
fits (ws_trip_at id) hijacked = true
fits (ws_trip_at id) (plain s text) = true
fits (ws_trip_at id) r = false
