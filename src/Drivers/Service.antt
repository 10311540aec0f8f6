-- ===== src/Drivers/Service.antt =====
-- ride-service/internal/drivers/service.go: the operations on accounts, as functions of the table.
-- `uuid.New()`, bcrypt's salt and the times that `jwt.Generate` reads are arguments.
use text.Mathlib.Text.{◌==◌}
use uber.Base.{ℕ, String, Time, none, some, Result, ok, err, ◌>>=◌, if◌then◌else◌}
use uber.Accounts.Table.{Table}
use uber.Accounts.Steps.{AccountDeps, create_account, login_account}
use uber.Drivers.Model.{Driver, RegisterRequest, LoginRequest, AuthResponse}
use uber.Drivers.Store.{DriverRow, NewDriver, driver_columns}

abbrev pub DriverDb : Type 0
DriverDb = Table DriverRow

-- What `Service` works with on accounts, and the standard library.
abbrev pub DriverDeps : Type 0
DriverDeps = AccountDeps DriverRow NewDriver

-- The fields that `Login` and `GetByID` scan; the hash stays out of the driver.
unfoldable pub driver_of : DriverRow → Driver
driver_of r = record {
  id = r.id;
  name = r.name;
  email = r.email;
  phone = r.phone;
  password_hash = "";
  vehicle_type = r.vehicle_type;
  license_plate = r.license_plate;
  status = r.status;
  rating = r.rating;
  created_at = some r.created_at;
}

-- The answer to a driver who has logged in.
abbrev pub logged_in : DriverRow → (token : String) → AuthResponse
logged_in r token = record { token = token; driver = driver_of r }

-- `vt`
unfoldable pub vehicle_of : RegisterRequest → String
vehicle_of req = if req.vehicle_type == "" then "sedan" else req.vehicle_type

module _ (d : DriverDeps) where
  open d use {go, sql, bcrypt}

  unfoldable pub new_driver : (id hash : String) → RegisterRequest → NewDriver
  unfolding vehicle_of
  new_driver id hash req = record {
    id = id;
    name = req.name;
    email = req.email;
    phone = req.phone;
    password_hash = hash;
    vehicle_type = vehicle_of req;
    license_plate = req.license_plate;
    status = "available";
    rating = go.of_nat 5;
  }

  -- The answer to a new driver.
  unfoldable pub registered : (id token : String) → RegisterRequest → AuthResponse
  unfolding vehicle_of
  registered id token req = record {
    token = token;
    driver = record {
      id = id;
      name = req.name;
      email = req.email;
      phone = req.phone;
      password_hash = "";
      vehicle_type = vehicle_of req;
      license_plate = req.license_plate;
      status = "available";
      rating = go.of_nat 5;
      created_at = none;
    };
  }

  -- What is tested before the INSERT, and the hash.
  unfoldable pub check_new : (salt : ℕ) → RegisterRequest → DriverDb → Result String
  check_new salt req db = sql.exists_email req.email db >>= λ exists.
      if exists
      then err "email already exists"
      else (sql.exists_phone req.phone db >>= λ exists'.
          if exists'
          then err "phone already exists"
          else bcrypt.generate_from_password salt req.password)

  unfoldable pub register :
      (id : String) (salt : ℕ) (now now' : Time)
      → RegisterRequest
      → DriverDb
      → DriverDb × Result AuthResponse
  unfolding check_new create_account registered
  register id salt now now' req db = elim (check_new salt req db) [
    | err e ↦ (db, err e)
    | ok hash ↦
        create_account d "driver" (new_driver id hash req) id req.email
          (λ token. registered id token req) now now' db
  ]

  unfoldable pub login : (now now' : Time) → LoginRequest → DriverDb → Result AuthResponse
  unfolding login_account driver_of
  login now now' req db =
      login_account d "driver" driver_columns logged_in now now' req.email req.password db

  unfoldable pub get_driver : (id : String) → DriverDb → Result Driver
  unfolding driver_of
  get_driver id db = elim (sql.query_id id db) [
    | err e ↦ err "driver not found"
    | ok r ↦ ok (driver_of r)
  ]
