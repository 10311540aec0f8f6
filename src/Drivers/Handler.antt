-- ===== src/Drivers/Handler.antt =====
-- ride-service/internal/drivers/handler.go: the endpoints for accounts. The path's id,
-- `uuid.New()`, bcrypt's salt and the times that `jwt.Generate` reads are arguments.
use uber.Base.{ℕ, String, Time, Option, none, some, ok, err, if◌then◌else◌}
use uber.Events.{Bytes}
use uber.Http.{json}
use uber.Auth.Middleware.{Next}
use uber.Validation.{validate_name, validate_email, validate_phone, validate_password}
use uber.Drivers.Model.{Driver, RegisterRequest, LoginRequest, AuthResponse}
use uber.Drivers.Service.{DriverDb, DriverDeps, register, login, get_driver}

-- What `Decode` has put into the variable, and its error.
pub record DriverDecoders : Type 0 where
  pub decode_register : Bytes → RegisterRequest × Option String
  pub decode_login : Bytes → LoginRequest × Option String

-- The values that `writeJSON` is called with.
pub data DriverBody : Type 0 where
  error : String → DriverBody
  welcome : AuthResponse → DriverBody
  profile : Driver → DriverBody

-- The four tests of `Register`, in their order: the first that fails.
unfoldable pub invalid : RegisterRequest → Option String
invalid req =
    if validate_name req.name
    then if validate_email req.email
      then if validate_phone req.phone
        then if validate_password req.password
          then none
          else some "password must be at least 6 characters"
        else some "invalid phone"
      else some "invalid email"
    else some "invalid name"

module _ (d : DriverDeps) (dec : DriverDecoders) where
  unfoldable pub handle_register :
      (id : String) (salt : ℕ) (now now' : Time) → Bytes → Next DriverDb DriverBody
  unfolding invalid
  handle_register id salt now now' body claims db =
      let (req, failed) = dec.decode_register body in
      elim failed [
        | some e ↦ (db, json 400 (error "invalid body"))
        | none ↦ elim (invalid req) [
          | some text ↦ (db, json 400 (error text))
          | none ↦
              let (db', made) = register d id salt now now' req db in
              (db', elim made [ err e ↦ json 409 (error e) | ok resp ↦ json 201 (welcome resp) ])
        ]
      ]

  unfoldable pub handle_login : (now now' : Time) → Bytes → Next DriverDb DriverBody
  handle_login now now' body claims db =
      let (req, failed) = dec.decode_login body in
      elim failed [
        | some e ↦ (db, json 400 (error "invalid body"))
        | none ↦
            if validate_email req.email
            then (
              db,
              elim (login d now now' req db) [
                | err e ↦ json 401 (error e)
                | ok resp ↦ json 200 (welcome resp)
              ],
            )
            else (db, json 400 (error "invalid email"))
      ]

  unfoldable pub handle_get_by_id : (path_id : String) → Next DriverDb DriverBody
  handle_get_by_id path_id claims db = (
    db,
    elim (get_driver d path_id db) [
      | err e ↦ json 404 (error e)
      | ok driver ↦ json 200 (profile driver)
    ],
  )
