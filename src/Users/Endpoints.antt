-- ===== src/Users/Endpoints.antt =====
-- What every endpoint of users guarantees.
use uber.Base.{ℕ, String, Time, Option, ◌≡◌, ◌≢◌, arith, Option-cases, inl, inr}
use uber.Events.{Bytes}
use uber.Http.{panicked}
use uber.Auth.Tokens.{Claims}
use uber.Auth.Middleware.{require_auth}
use uber.Accounts.Table.{IsAccountSql, IsUnique}
use uber.Users.Store.{user_row, user_columns}
use uber.Users.Service.{UserDb, UserDeps}
use uber.Users.Handler.{
  UserDecoders, Route, post_register, post_login, get_user_by_id, handle_register, handle_login,
  get_profile, routes,
}
use uber.Users.Accounts.{register-IsUnique}

module _ (d : UserDeps) (dec : UserDecoders) where
  db-handle_login :
      (now now' : Time) (body : Bytes) (context : Option Claims) (db : UserDb)
      → (handle_login d dec now now' body context db).0 ≡ db
  unfolding handle_login
  db-handle_login now now' body context db = ground arith

  db-get_profile :
      (path_id : String) (context : Option Claims) (db : UserDb)
      → (get_profile d dec path_id context db).0 ≡ db
  unfolding get_profile require_auth
  db-get_profile path_id context db = ground arith

  pub routes-panicked :
      (route : Route) (id : String) (salt : ℕ) (now now' : Time) (body : Bytes)
      (context : Option Claims) (db : UserDb)
      → (routes d dec route id salt now now' body context db).1 ≢ panicked
  unfolding routes handle_register handle_login get_profile require_auth
  routes-panicked post_register id salt now now' body context db e = ground arith
  routes-panicked post_login id salt now now' body context db e = ground arith
  routes-panicked (get_user_by_id path_id) id salt now now' body context db e = ground arith

  module _ (laws : IsAccountSql user_columns user_row d.sql) where
    handle_register-IsUnique :
        (id : String) (salt : ℕ) (now now' : Time) (body : Bytes) (context : Option Claims)
        (db : UserDb)
        → IsUnique user_columns db.rows
        → IsUnique user_columns (handle_register d dec id salt now now' body context db).0.rows
    unfolding handle_register
    handle_register-IsUnique id salt now now' body context db unique =
        elim (Option-cases (dec.decode_register body).1) [
          | inr (x, failed) ↦ rw (failed, handle_register) unique
          | inl decoded ↦
              rw (decoded, handle_register)
                (register-IsUnique d laws id salt now now' (dec.decode_register body).0 db unique)
        ]

    -- The addresses and the phones of the table stay unique.
    pub routes-IsUnique :
        (route : Route) (id : String) (salt : ℕ) (now now' : Time) (body : Bytes)
        (context : Option Claims) (db : UserDb)
        → IsUnique user_columns db.rows
        → IsUnique user_columns (routes d dec route id salt now now' body context db).0.rows
    unfolding routes
    routes-IsUnique post_register id salt now now' body context db unique =
        handle_register-IsUnique id salt now now' body context db unique
    routes-IsUnique post_login id salt now now' body context db unique =
        rw (db-handle_login now now' body context db) unique
    routes-IsUnique (get_user_by_id path_id) id salt now now' body context db unique =
        rw (db-get_profile path_id context db) unique
