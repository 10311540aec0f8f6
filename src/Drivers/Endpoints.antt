-- ===== src/Drivers/Endpoints.antt =====
-- What every endpoint of drivers guarantees.
use uber.Base.{ℕ, String, Time, Option, none, some, ◌≡◌, ◌≢◌, arith}
use uber.Events.{Bytes}
use uber.Http.{panicked}
use uber.Auth.Tokens.{Claims}
use uber.Auth.Middleware.{require_auth}
use uber.Auth.Part.{lift}
use uber.Accounts.Table.{IsAccountSql, IsUnique}
use uber.Drivers.Store.{driver_row, driver_columns}
use uber.Drivers.Service.{DriverDb, DriverDeps}
use uber.Drivers.Handler.{DriverDecoders, handle_register, handle_login, handle_get_by_id}
use uber.Drivers.Accounts.{handle_register-IsUnique}
use uber.Drivers.Locations.{LocationDeps, handle_get_nearby, handle_update_location}
use uber.Drivers.Routes.{
  DriverState, Route, post_register, post_login, get_nearby, get_driver_by_id, patch_location,
  routes,
}

module _ (d : DriverDeps) (dec : DriverDecoders) (l : LocationDeps) where
  db-handle_login :
      (now now' : Time) (body : Bytes) (context : Option Claims) (db : DriverDb)
      → (handle_login d dec now now' body context db).0 ≡ db
  unfolding handle_login
  db-handle_login now now' body context db = ground arith

  dispatch-panicked :
      (route : Route) (id : String) (salt : ℕ) (now now' : Time) (body : Bytes) (c : Claims)
      (s : DriverState)
      → (routes d dec l route id salt now now' body (some c) s).1 ≢ panicked
  unfolding routes lift require_auth handle_register handle_login handle_get_by_id handle_get_nearby
      handle_update_location
  dispatch-panicked post_register id salt now now' body c s e = ground arith
  dispatch-panicked post_login id salt now now' body c s e = ground arith
  dispatch-panicked (get_nearby lat lng radius) id salt now now' body c s e = ground arith
  dispatch-panicked (get_driver_by_id path_id) id salt now now' body c s e = ground arith
  dispatch-panicked (patch_location path_id) id salt now now' body c s e = ground arith

  pub routes-panicked :
      (route : Route) (id : String) (salt : ℕ) (now now' : Time) (body : Bytes)
      (context : Option Claims) (s : DriverState)
      → (routes d dec l route id salt now now' body context s).1 ≢ panicked
  unfolding routes lift require_auth handle_register handle_login
  routes-panicked route id salt now now' body (some c) s e =
      dispatch-panicked route id salt now now' body c s e
  routes-panicked post_register id salt now now' body none s e = ground arith
  routes-panicked post_login id salt now now' body none s e = ground arith
  routes-panicked (get_nearby lat lng radius) id salt now now' body none s e = ground arith
  routes-panicked (get_driver_by_id path_id) id salt now now' body none s e = ground arith
  routes-panicked (patch_location path_id) id salt now now' body none s e = ground arith

  module _ (laws : IsAccountSql driver_columns driver_row d.sql) where
    -- The addresses and the phones of the table stay unique.
    pub routes-IsUnique :
        (route : Route) (id : String) (salt : ℕ) (now now' : Time) (body : Bytes)
        (context : Option Claims) (s : DriverState)
        → IsUnique driver_columns s.db.rows
        → IsUnique driver_columns (routes d dec l route id salt now now' body context s).0.db.rows
    unfolding routes lift require_auth handle_get_by_id
    routes-IsUnique post_register id salt now now' body context s unique =
        handle_register-IsUnique d dec laws id salt now now' body context s.db unique
    routes-IsUnique post_login id salt now now' body context s unique =
        rw (db-handle_login now now' body context s.db) unique
    routes-IsUnique (get_nearby lat lng radius) id salt now now' body none s unique = unique
    routes-IsUnique (get_nearby lat lng radius) id salt now now' body (some c) s unique = unique
    routes-IsUnique (get_driver_by_id path_id) id salt now now' body none s unique = unique
    routes-IsUnique (get_driver_by_id path_id) id salt now now' body (some c) s unique = unique
    routes-IsUnique (patch_location path_id) id salt now now' body none s unique = unique
    routes-IsUnique (patch_location path_id) id salt now now' body (some c) s unique = unique
