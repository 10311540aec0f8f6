-- ===== src/Server/Guard.antt =====
-- Which requests the router lets through to its handlers.
use uber.Base.{ℕ, String, Option, none, some, true, false, ◌≡◌, refl, ◌⊎◌, inl, inr, arith, ap, ◌∙◌}
use uber.Http.{plain}
use uber.Auth.Tokens.{Claims, IsGoJwt, IsGenuine}
use uber.Auth.Middleware.{bearer, add_claims, require_auth, optional_auth}
use uber.Auth.Part.{lift, map_reply}
use uber.Auth.Guard.{require_auth_guards}
use uber.Trips.Handler as Trips
use uber.Users.Handler as Users
use uber.Drivers.Routes as Drivers
use uber.Drivers.Handler as Accounts
use uber.Tracking.Hub.{Hub}
use uber.Tracking.Handler.{handle_ws, Upgrade, refused, opened}
use uber.Server.Model.{
  ServerDeps, Server, Endpoint, health, users_at, drivers_at, trips_at, ws_trip_at, user, Request,
  is_protected,
}
use uber.Server.Router.{hub_part, mounted, serve}

handle_ws_public :
    {B : Type 0} (u : Upgrade) (spare : ℕ) (trip : String) (context context' : Option Claims)
    (h : Hub)
    → handle_ws {B = B} u spare trip context h ≡ handle_ws u spare trip context' h
unfolding handle_ws
handle_ws_public (refused status text) spare trip c c' h = refl
handle_ws_public (opened conn) spare trip c c' h = refl

module _ (d : ServerDeps) where
  -- A protected endpoint stands behind `RequireAuth`, in its own router.
  pub mounted-require_auth :
      (context : Option Claims) (e : Endpoint) (r : Request) (s : Server)
      → is_protected e ≡ true
      → mounted d e r context s ≡ require_auth (mounted d e r) context s
  unfolding mounted lift require_auth Users.routes Users.get_profile Drivers.routes Trips.routes
  mounted-require_auth (some c) e r s p = refl
  mounted-require_auth none health r s p = absurd (ground arith)
  mounted-require_auth none (users_at Users.post_register) r s p = absurd (ground arith)
  mounted-require_auth none (users_at Users.post_login) r s p = absurd (ground arith)
  mounted-require_auth none (users_at (Users.get_user_by_id id)) r s p = refl
  mounted-require_auth none (drivers_at Drivers.post_register) r s p = absurd (ground arith)
  mounted-require_auth none (drivers_at Drivers.post_login) r s p = absurd (ground arith)
  mounted-require_auth none (drivers_at (Drivers.get_nearby lat lng radius)) r s p = refl
  mounted-require_auth none (drivers_at (Drivers.get_driver_by_id id)) r s p = refl
  mounted-require_auth none (drivers_at (Drivers.patch_location id)) r s p = refl
  mounted-require_auth none (trips_at route) r s p = refl
  mounted-require_auth none (ws_trip_at id) r s p = absurd (ground arith)

  -- A public endpoint does not look at the claims.
  mounted_public :
      (e : Endpoint) (r : Request) (header : String)
      → is_protected e ≡ false
      → (context context' : Option Claims) (s : Server)
      → mounted d e (record r { authorization = header }) context s ≡ mounted d e r context' s
  unfolding mounted lift Users.routes Users.handle_register Users.handle_login Drivers.routes
      Accounts.handle_register Accounts.handle_login
  mounted_public health r header p c c' s = refl
  mounted_public (users_at Users.post_register) r header p c c' s = refl
  mounted_public (users_at Users.post_login) r header p c c' s = refl
  mounted_public (users_at (Users.get_user_by_id id)) r header p c c' s = absurd (ground arith)
  mounted_public (drivers_at Drivers.post_register) r header p c c' s = refl
  mounted_public (drivers_at Drivers.post_login) r header p c c' s = refl
  mounted_public (drivers_at (Drivers.get_nearby lat lng radius)) r header p c c' s =
      absurd (ground arith)
  mounted_public (drivers_at (Drivers.get_driver_by_id id)) r header p c c' s =
      absurd (ground arith)
  mounted_public (drivers_at (Drivers.patch_location id)) r header p c c' s = absurd (ground arith)
  mounted_public (trips_at route) r header p c c' s = absurd (ground arith)
  mounted_public (ws_trip_at id) r header p c c' s =
      ap (λ t. (hub_part.put t.0 s, map_reply user t.1))
        (handle_ws_public r.upgrade r.spare id c c' s.hub)

  -- A request to a protected endpoint, with a golang-jwt that keeps `IsGoJwt`: either the answer is
  -- 401 and nothing changes anywhere, or its header holds a genuine token and the endpoint has run
  -- with the claims of that token.
  pub serve_guards :
      IsGoJwt d.jwt
      → (r : Request) (s : Server) → is_protected r.endpoint ≡ true
      → (serve d r s ≡ (s, plain 401 "{\"error\":\"unauthorized\"}"))
        ⊎ ((raw : String) × (bearer r.authorization ≡ some raw)
            × IsGenuine d.jwt d.secret r.received raw
            × (serve d r s ≡ mounted d r.endpoint r (some (d.jwt.payload raw)) s))
  unfolding serve optional_auth
  serve_guards laws r s p =
      let next = mounted d r.endpoint r in
      let same =
        mounted-require_auth (add_claims d.jwt d.secret r.received (bearer r.authorization) none)
          r.endpoint r s p in
      elim (require_auth_guards d.jwt laws d.secret r.received r.authorization next s) [
        | inl out ↦ inl (same ∙ out)
        | inr (raw, present, genuine, ran) ↦ inr (raw, present, genuine, same ∙ ran)
      ]

  -- A public endpoint (an account's registration and login, a trip's web socket, the health check)
  -- answers and acts alike whatever stands in the Authorization header, a bad token included.
  pub serve_public :
      (r : Request) (header : String) (s : Server)
      → is_protected r.endpoint ≡ false
      → serve d (record r { authorization = header }) s ≡ serve d r s
  unfolding serve optional_auth
  serve_public r header s p =
      mounted_public r.endpoint r header p
        (add_claims d.jwt d.secret r.received (bearer header) none)
        (add_claims d.jwt d.secret r.received (bearer r.authorization) none) s
