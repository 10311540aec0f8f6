-- ===== src/Server/Journey.antt =====
-- From an account to the protected endpoints of all components.
use uber.Base.{String, some, none, true, ◌<◌, ◌+◌, ◌≡◌, refl, arith, ok, ◌∙◌}
use uber.Http.{Reply, json, plain, hijacked, panicked}
use uber.Auth.Tokens.{Claims, IsGoJwt, day, new_claims, generate}
use uber.Auth.Middleware.{bearer, add_claims, optional_auth}
use uber.Auth.Part.{lift, map_reply}
use uber.Auth.Guard.{generated_admitted}
use uber.Accounts.Table.{IsAccountSql, IsBcrypt}
use uber.Users.Store.{user_row, user_columns}
use uber.Users.Model as UserModel
use uber.Users.Handler as Users
use uber.Users.Handler.{UserBody}
use uber.Users.Replies.{handle_register_made}
use uber.Users.Accounts.{register_ok}
use uber.Drivers.Store.{driver_row, driver_columns}
use uber.Drivers.Model as DriverModel
use uber.Drivers.Handler.{DriverBody, welcome}
use uber.Drivers.Accounts.{handle_register_201}
use uber.Drivers.Routes as Drivers
use uber.Drivers.Routes.{DriverReply, account}
use uber.Server.Model.{
  ServerDeps, user_deps, driver_deps, Server, users_at, drivers_at, user, driver, Request,
  is_protected,
}
use uber.Server.Router.{mounted, serve}
use uber.Server.Guard.{mounted-require_auth}

-- A registration that was answered 201, with the token of the reply and what it says.
pub data IsWelcome (d : ServerDeps) (r : Request) (s : Server) : String → Claims → Type 0 where
  as_rider :
      (resp : UserModel.AuthResponse)
      → (serve d (record r { endpoint = users_at Users.post_register }) s).1
        ≡ json 201 (user (Users.welcome resp))
      → IsWelcome d r s resp.token (
          new_claims d.jwt r.id
            (d.user_decoders.decode_register r.body).0.email
            "rider"
            r.now
            r.now')
  as_driver :
      (resp : DriverModel.AuthResponse)
      → (serve d (record r { endpoint = drivers_at Drivers.post_register }) s).1
        ≡ json 201 (driver (account (welcome resp)))
      → IsWelcome d r s resp.token (
          new_claims d.jwt r.id
            (d.driver_decoders.decode_register r.body).0.email
            "driver"
            r.now
            r.now')

map_reply-user :
    (x : Reply UserBody) (b : UserBody) → map_reply user x ≡ json 201 (user b) → x ≡ json 201 b
map_reply-user (json status c) b e = ground arith
map_reply-user (plain status text) b e = absurd (ground arith)
map_reply-user hijacked b e = absurd (ground arith)
map_reply-user panicked b e = absurd (ground arith)

map_reply-driver :
    (x : Reply DriverBody) (b : DriverBody)
    → map_reply driver (map_reply account x) ≡ json 201 (driver (account b))
    → x ≡ json 201 b
map_reply-driver (json status c) b e = ground arith
map_reply-driver (plain status text) b e = absurd (ground arith)
map_reply-driver hijacked b e = absurd (ground arith)
map_reply-driver panicked b e = absurd (ground arith)

module _ (d : ServerDeps) (crypt : IsBcrypt d.bcrypt)
    (users : IsAccountSql user_columns user_row d.user_sql)
    (drivers : IsAccountSql driver_columns driver_row d.driver_sql) where
  -- The token of the reply was made for the claims.
  generated-IsWelcome :
      (r : Request) (s : Server) (token : String) (c : Claims)
      → IsWelcome d r s token c
      → (email : String) × (role : String) × (generate d.jwt d.secret r.id email role r.now r.now'
          ≡ ok token)
        × (c ≡ new_claims d.jwt r.id email role r.now r.now')
  unfolding serve mounted lift optional_auth Users.routes Drivers.routes
  generated-IsWelcome r s token c (as_rider resp e) =
      let req = (d.user_decoders.decode_register r.body).0 in
      let context = add_claims d.jwt d.secret r.received (bearer r.authorization) none in
      let (_, _, _, _, made, _) =
        register_ok (user_deps d) users crypt r.id r.salt r.now r.now' req s.users resp (
          handle_register_made (user_deps d) d.user_decoders r.id r.salt r.now r.now' r.body context
            s.users resp (map_reply-user _ _ e)) in
      (req.email, "rider", made, refl)
  generated-IsWelcome r s token c (as_driver resp e) =
      let req = (d.driver_decoders.decode_register r.body).0 in
      let context = add_claims d.jwt d.secret r.received (bearer r.authorization) none in
      let (_, _, _, _, _, _, made, _) =
        handle_register_201 (driver_deps d) d.driver_decoders drivers crypt r.id r.salt r.now r.now'
          r.body context s.drivers.db resp (map_reply-driver _ _ e) in
      (req.email, "driver", made, refl)

  -- With a PostgreSQL, a bcrypt and a golang-jwt as documented: once a rider or a driver has been
  -- registered with an answer 201, a request to any protected endpoint with the token of that reply
  -- runs the endpoint with the new id, the address and the role in its claims, until the token
  -- expires, whatever the server has done in between.
  pub serve-IsWelcome :
      IsGoJwt d.jwt
      → (r : Request) (s : Server) (token : String) (c : Claims) → IsWelcome d r s token c
      → (q : Request) (s' : Server) → is_protected q.endpoint ≡ true
      → q.received < d.jwt.numeric_date (r.now' + day)
      → bearer q.authorization ≡ some token
      → serve d q s' ≡ mounted d q.endpoint q (some c) s'
  unfolding serve optional_auth
  serve-IsWelcome jwt r s token c w q s' p early held =
      let (email, role, made, is) = generated-IsWelcome r s token c w in
      rw is (
        mounted-require_auth d (add_claims d.jwt d.secret q.received (bearer q.authorization) none)
          q.endpoint q s' p
        ∙ generated_admitted d.jwt jwt d.secret r.id email role token q.authorization r.now r.now'
            q.received (mounted d q.endpoint q) s' made early held)
