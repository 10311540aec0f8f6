-- ===== src/Drivers/Locations.antt =====
-- The endpoints of ride-service/internal/drivers/handler.go for locations, with their operations of
-- service.go. The set of locations is the state; `strconv.ParseFloat` and what encoding/json makes
-- of a body are parameters. A query parameter that is not there is the empty text.
use text.Mathlib.Text.{◌==◌}
use uber.Base.{String, Float, Go, Option, none, some, List, ◌||◌, Result, ok, err, if◌then◌else◌}
use uber.Events.{Bytes}
use uber.Http.{json}
use uber.Drivers.Model.{LocationUpdate}
use uber.Redis.{Redis, Geo, set_driver_location, get_nearby_drivers}
use uber.Auth.Middleware.{Next}
use uber.Validation.{validate_coordinates}

-- The values that `writeJSON` is called with.
pub data LocationBody : Type 0 where
  error : String → LocationBody
  status : String → LocationBody
  drivers : List String → LocationBody

pub record LocationDeps : Type 0 where
  pub go : Go
  pub redis : Redis
  pub decode_location : Bytes → LocationUpdate × Option String
  pub parse_float : String → Result Float

module _ (d : LocationDeps) where
  open d use {go, redis, decode_location, parse_float}

  unfoldable pub update_location :
      (driver_id : String) (lat lng : Float) → Geo → Geo × Option String
  unfolding set_driver_location
  update_location driver_id lat lng = set_driver_location redis driver_id lat lng

  unfoldable pub get_nearby : (lat lng radius_km : Float) → Geo → Result (List String)
  unfolding get_nearby_drivers
  get_nearby lat lng radius_km = get_nearby_drivers redis lat lng radius_km 10

  unfoldable pub handle_update_location : (path_id : String) → Bytes → Next Geo LocationBody
  unfolding update_location
  handle_update_location path_id body claims g =
      let (loc, failed) = decode_location body in
      elim failed [
        | some e ↦ (g, json 400 (error "invalid body"))
        | none ↦
            if validate_coordinates go loc.lat loc.lng
            then (let (g', failed') = update_location path_id loc.lat loc.lng g in
                (
                  g',
                  elim failed' [
                    | some e ↦ json 500 (error e)
                    | none ↦ json 200 (status "location_updated")
                  ],
                ))
            else (g, json 400 (error "invalid coordinates"))
      ]

  -- The radius in kilometres: 5 without a parameter.
  unfoldable pub radius_of : (radius : String) → Result Float
  radius_of radius = if radius == "" then ok (go.of_nat 5) else elim (parse_float radius) [
    | err e ↦ err "invalid radius"
    | ok r ↦ if go.le r (go.of_nat 0) then err "invalid radius" else ok r
  ]

  -- The place and the radius that the parameters give, or what is wrong with them.
  unfoldable pub nearby_query : (lat lng radius : String) → Result (Float × Float × Float)
  unfolding radius_of
  nearby_query lat lng radius =
      if lat == "" || lng == "" then err "lat and lng are required" else elim (parse_float lat) [
        | err e ↦ err "invalid lat"
        | ok x ↦ elim (parse_float lng) [
          | err e ↦ err "invalid lng"
          | ok y ↦
              if validate_coordinates go x y
              then elim (radius_of radius) [ err e ↦ err e | ok r ↦ ok (x, y, r) ]
              else err "invalid coordinates"
        ]
      ]

  unfoldable pub handle_get_nearby : (lat lng radius : String) → Next Geo LocationBody
  unfolding nearby_query get_nearby
  handle_get_nearby lat lng radius claims g = elim (nearby_query lat lng radius) [
    | err e ↦ (g, json 400 (error e))
    | ok (x, y, r) ↦ (
      g,
      elim (get_nearby x y r g) [ err e ↦ json 500 (error e) | ok ids ↦ json 200 (drivers ids) ],
    )
  ]
