-- ===== src/Drivers/Tests.antt =====
-- The endpoints for locations at a Redis where every place is near, and the theorems at these runs.
use text.Mathlib.Text.{◌==◌}
use uber.Base.{none, [], ◌∷◌, ◌≡◌, refl, ok, err, if◌then◌else◌}
use uber.Http.{json}
use uber.Redis.{Geo}
use uber.Validation.{validate_coordinates}
use uber.Drivers.Locations.{
  LocationDeps, error, status, handle_update_location, handle_get_nearby, update_location,
  nearby_query,
}
use uber.Redis.Everywhere.{everywhere}
use uber.Trips.Memory.{whole}

abbrev parts : LocationDeps
parts = record {
  go = record whole { neg = λ x. 0 };
  redis = everywhere;
  decode_location = λ b. (record { lat = 12; lng = 77 }, none);
  parse_float = λ s. if s == "12" then ok 12 else if s == "77" then ok 77 else err "invalid syntax";
}

abbrev nobody : Geo
nobody = record { members = []; hidden = 0 }

stores : handle_update_location parts "d1" [] none nobody ≡ (
  record nobody { members = record { name = "d1"; longitude = 77; latitude = 12 } ∷ [] },
  json 200 (status "location_updated"),
)
unfolding handle_update_location update_location validate_coordinates
stores = refl

abbrev one_driver : Geo
one_driver = record {
  members = record { name = "d1"; longitude = 77; latitude = 12 } ∷ [];
  hidden = 0;
}

no_place :
    (handle_get_nearby parts "12" "" "" none nobody).1 ≡ json 400 (error "lat and lng are required")
unfolding handle_get_nearby nearby_query
no_place = refl
