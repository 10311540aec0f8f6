-- ===== src/Server/Answers.antt =====
-- Every endpoint keeps to its contract.
use uber.Redis.{Geo}
use uber.Validation.{validate_coordinates}
use uber.Base.{
  ℕ, String, Option, none, some, Bool, true, ◌≡◌, refl, arith, Option-cases, Bool-cases, inl, inr,
}
use uber.Events.{Bytes}
use uber.Http.{Reply, json, plain, hijacked, panicked}
use uber.Auth.Tokens.{Claims}
use uber.Auth.Middleware.{add_claims, bearer, optional_auth, require_auth}
use uber.Auth.Part.{lift, map_reply}
use uber.Tracking.Hub.{Hub}
use uber.Tracking.Handler.{handle_ws, Upgrade, refused, opened}
use uber.Trips.Service.{World}
use uber.Trips.Handler as Trips
use uber.Users.Handler as Users
use uber.Users.Handler.{UserBody}
use uber.Users.Service.{UserDb}
use uber.Drivers.Handler as Accounts
use uber.Drivers.Locations as Locations
use uber.Drivers.Locations.{LocationBody}
use uber.Drivers.Routes as Drivers
use uber.Drivers.Routes.{DriverState, DriverReply}
use uber.Server.Model.{
  ServerDeps, user_deps, driver_deps, location_deps, trip_deps, Server, Endpoint, health, users_at,
  drivers_at, trips_at, ws_trip_at, user, Request,
}
use uber.Server.Router.{mounted, serve}
use uber.Server.Contract.{
  user_answer, driver_answer, trip_answer, value_fits, is_guarded_user, is_guarded_driver, fits,
}

-- A value that is wrapped on its way out.
value_fits-map_reply :
    {B C : Type 0} (f : B → C) (guarded : Bool) (answer : ℕ → C → Bool) (r : Reply B)
    → value_fits guarded answer (map_reply f r) ≡ value_fits guarded (λ s b. answer s (f b)) r
value_fits-map_reply f guarded answer (json s b) = refl
value_fits-map_reply f guarded answer (plain s text) = refl
value_fits-map_reply f guarded answer hijacked = refl
value_fits-map_reply f guarded answer panicked = refl

module _ (d : ServerDeps) where
  users_fit :
      (route : Users.Route) (r : Request) (c : Option Claims) (db : UserDb)
      → value_fits
          (is_guarded_user route)
          (user_answer route)
          (Users.routes (user_deps d) d.user_decoders route r.id r.salt r.now r.now' r.body c db).1
        ≡ true
  unfolding Users.routes Users.handle_register Users.handle_login Users.get_profile require_auth
  users_fit Users.post_register r c db = ground arith
  users_fit Users.post_login r c db = ground arith
  users_fit (Users.get_user_by_id id) r none db = ground arith
  users_fit (Users.get_user_by_id id) r (some c) db = ground arith

  location_fits :
      (id : String) (body : Bytes) (c : Option Claims) (g : Geo)
      → value_fits true
          (λ s b. driver_answer (Drivers.patch_location id) s (Drivers.location b))
          (Locations.handle_update_location (location_deps d) id body c g).1
        ≡ true
  unfolding Locations.handle_update_location
  location_fits id body c g =
      let loc = (d.decode_location body).0 in
      let reply = (Locations.handle_update_location (location_deps d) id body c g).1 in
      let stored =
        (d.redis.geo_add (record { name = id; longitude = loc.lng; latitude = loc.lat }) g).1 in
      elim (Option-cases (d.decode_location body).1) [
        | inr (e, bad) ↦
            answered reply 400 (Locations.error "invalid body") refl (ground (arith, bad))
        | inl good ↦ elim (Bool-cases (validate_coordinates d.go loc.lat loc.lng)) [
          | inr out ↦
              answered reply 400 (Locations.error "invalid coordinates") refl
                (ground (arith, good, out))
          | inl inside ↦ elim (Option-cases stored) [
            | inr (e, failed) ↦
                answered reply 500 (Locations.error e) refl (ground (arith, good, inside, failed))
            | inl done ↦
                answered reply 200 (Locations.status "location_updated") refl
                  (ground (arith, good, inside, done))
          ]
        ]
      ]
    where
      answered :
          (reply : Reply LocationBody) (s : ℕ) (b : LocationBody)
          → driver_answer (Drivers.patch_location id) s (Drivers.location b) ≡ true
          → reply ≡ json s b
          → value_fits true
              (λ s b. driver_answer (Drivers.patch_location id) s (Drivers.location b))
              reply
            ≡ true
      answered reply s b fine e = rw e fine

  drivers_fit :
      (route : Drivers.Route) (r : Request) (c : Option Claims) (s : DriverState)
      → value_fits
          (is_guarded_driver route)
          (driver_answer route)
          (Drivers.routes
            (driver_deps d)
            d.driver_decoders
            (location_deps d)
            route
            r.id
            r.salt
            r.now
            r.now'
            r.body
            c
            s).1
        ≡ true
  unfolding Drivers.routes lift Accounts.handle_register Accounts.handle_login
      Accounts.handle_get_by_id Locations.handle_get_nearby Locations.handle_update_location
      require_auth
  drivers_fit Drivers.post_register r c s = ground arith
  drivers_fit Drivers.post_login r c s = ground arith
  drivers_fit (Drivers.get_nearby lat lng radius) r none s = ground arith
  drivers_fit (Drivers.get_nearby lat lng radius) r (some c) s = ground arith
  drivers_fit (Drivers.get_driver_by_id id) r none s = ground arith
  drivers_fit (Drivers.get_driver_by_id id) r (some c) s = ground arith
  drivers_fit (Drivers.patch_location id) r none s = ground arith
  drivers_fit (Drivers.patch_location id) r (some c) s =
      rw value_fits-map_reply (location_fits id r.body (some c) s.geo)

  trips_fit :
      (route : Trips.Route) (r : Request) (c : Option Claims) (w : World)
      → value_fits true
          (trip_answer route)
          (Trips.routes (trip_deps d) d.trip_decoders route r.id r.now r.body c w).1
        ≡ true
  unfolding Trips.routes Trips.dispatch Trips.handle_request Trips.handle_assign Trips.handle_start
      Trips.handle_end Trips.handle_get_by_id Trips.answer require_auth
  trips_fit route r none w = ground arith
  trips_fit Trips.post_request r (some c) w = ground arith
  trips_fit (Trips.get_trip id) r (some c) w = ground arith
  trips_fit (Trips.patch_assign id) r (some c) w = ground arith
  trips_fit (Trips.patch_start id) r (some c) w = ground arith
  trips_fit (Trips.patch_end id) r (some c) w = ground arith

  ws_fits :
      (id : String) (u : Upgrade) (spare : ℕ) (c : Option Claims) (h : Hub)
      → fits (ws_trip_at id) (map_reply user (handle_ws u spare id c h).1) ≡ true
  unfolding handle_ws
  ws_fits id (refused status text) spare c h = refl
  ws_fits id (opened conn) spare c h = refl

  mounted_fits :
      (e : Endpoint) (r : Request) (c : Option Claims) (s : Server)
      → fits e (mounted d e r c s).1 ≡ true
  unfolding mounted lift
  mounted_fits health r c s = refl
  mounted_fits (users_at route) r c s = rw value_fits-map_reply (users_fit route r c s.users)
  mounted_fits (drivers_at route) r c s = rw value_fits-map_reply (drivers_fit route r c s.drivers)
  mounted_fits (trips_at route) r c s = rw value_fits-map_reply (trips_fit route r c s.trips)
  mounted_fits (ws_trip_at id) r c s = ws_fits id r.upgrade r.spare c s.hub

  -- Every request, whatever its header, its body and what the servers answer, is answered as the
  -- contract of its endpoint says: with a value that belongs to the endpoint, under a status that
  -- belongs to the value, or with the 401 of `RequireAuth` where the endpoint stands behind it. No
  -- handler panics.
  pub serve_fits : (r : Request) (s : Server) → fits r.endpoint (serve d r s).1 ≡ true
  unfolding serve optional_auth
  serve_fits r s =
      mounted_fits r.endpoint r (add_claims d.jwt d.secret r.received (bearer r.authorization) none)
        s
