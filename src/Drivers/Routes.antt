-- ===== src/Drivers/Routes.antt =====
-- `Routes` of ride-service/internal/drivers/handler.go. The endpoints for accounts work on the
-- table of drivers, those for locations on the set of locations.
use uber.Base.{ℕ, String, Time}
use uber.Events.{Bytes}
use uber.Redis.{Geo}
use uber.Auth.Middleware.{Next, require_auth}
use uber.Auth.Part.{Part, lift}
use uber.Drivers.Service.{DriverDb, DriverDeps}
use uber.Drivers.Handler.{
  DriverDecoders, DriverBody, handle_register, handle_login, handle_get_by_id,
}
use uber.Drivers.Locations.{LocationDeps, LocationBody, handle_update_location, handle_get_nearby}

pub record DriverState : Type 0 where
  pub db : DriverDb
  pub geo : Geo

pub data DriverReply : Type 0 where
  account : DriverBody → DriverReply
  location : LocationBody → DriverReply

-- The endpoints, with the id of the path or the parameters of the query.
pub data Route : Type 0 where
  post_register : Route
  post_login : Route
  get_nearby : (lat lng radius : String) → Route
  get_driver_by_id : (id : String) → Route
  patch_location : (id : String) → Route

abbrev pub accounts : Part DriverState DriverDb
accounts = record { get = λ s. s.db; put = λ db s. record s { db = db } }

abbrev pub locations : Part DriverState Geo
locations = record { get = λ s. s.geo; put = λ geo s. record s { geo = geo } }

module _ (d : DriverDeps) (dec : DriverDecoders) (l : LocationDeps) where
  -- The endpoints of the group below `RequireAuth`, and the two that are public.
  unfoldable pub routes :
      Route → (id : String) (salt : ℕ) (now now' : Time) → Bytes → Next DriverState DriverReply
  unfolding lift
  routes post_register id salt now now' body =
      lift accounts account (handle_register d dec id salt now now' body)
  routes post_login id salt now now' body = lift accounts account (handle_login d dec now now' body)
  routes (get_nearby lat lng radius) id salt now now' body =
      require_auth (lift locations location (handle_get_nearby l lat lng radius))
  routes (get_driver_by_id path_id) id salt now now' body =
      require_auth (lift accounts account (handle_get_by_id d dec path_id))
  routes (patch_location path_id) id salt now now' body =
      require_auth (lift locations location (handle_update_location l path_id body))
