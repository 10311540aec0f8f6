-- ===== src/Users/Handler.antt =====
-- ride-service/internal/users/handler.go: the endpoints. The path's id, `uuid.New()`, bcrypt's salt
-- and the times that `jwt.Generate` reads are arguments.
use uber.Base.{ℕ, String, Time, Option, none, some, ok, err}
use uber.Events.{Bytes}
use uber.Http.{json}
use uber.Auth.Middleware.{Next, require_auth}
use uber.Users.Model.{User, RegisterRequest, LoginRequest, AuthResponse}
use uber.Users.Service.{UserDb, UserDeps, register, login, get_user}

-- What `Decode` has put into the variable, and its error.
pub record UserDecoders : Type 0 where
  pub decode_register : Bytes → RegisterRequest × Option String
  pub decode_login : Bytes → LoginRequest × Option String

-- The values that `writeJSON` is called with.
pub data UserBody : Type 0 where
  error : String → UserBody
  welcome : AuthResponse → UserBody
  profile : User → UserBody

module _ (d : UserDeps) (dec : UserDecoders) where
  unfoldable pub handle_register :
      (id : String) (salt : ℕ) (now now' : Time) → Bytes → Next UserDb UserBody
  handle_register id salt now now' body claims db =
      let (req, failed) = dec.decode_register body in
      elim failed [
        | some e ↦ (db, json 400 (error "invalid body"))
        | none ↦
            let (db', made) = register d id salt now now' req db in
            (db', elim made [ err e ↦ json 409 (error e) | ok resp ↦ json 201 (welcome resp) ])
      ]

  unfoldable pub handle_login : (now now' : Time) → Bytes → Next UserDb UserBody
  handle_login now now' body claims db =
      let (req, failed) = dec.decode_login body in
      elim failed [
        | some e ↦ (db, json 400 (error "invalid body"))
        | none ↦ (
          db,
          elim (login d now now' req db) [
            | err e ↦ json 401 (error e)
            | ok resp ↦ json 200 (welcome resp)
          ],
        )
      ]

  -- `GetProfile` behind its middleware.
  unfoldable pub get_profile : (path_id : String) → Next UserDb UserBody
  get_profile path_id = require_auth (λ claims db. (
    db,
    elim (get_user d path_id db) [ err e ↦ json 404 (error e) | ok u ↦ json 200 (profile u) ],
  ))

-- The endpoints, with the id of the path.
pub data Route : Type 0 where
  post_register : Route
  post_login : Route
  get_user_by_id : (id : String) → Route

module _ (d : UserDeps) (dec : UserDecoders) where
  unfoldable pub routes :
      Route → (id : String) (salt : ℕ) (now now' : Time) → Bytes → Next UserDb UserBody
  unfolding handle_register handle_login get_profile
  routes post_register id salt now now' body = handle_register d dec id salt now now' body
  routes post_login id salt now now' body = handle_login d dec now now' body
  routes (get_user_by_id path_id) id salt now now' body = get_profile d dec path_id
