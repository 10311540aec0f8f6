-- ===== src/Drivers/Answers.antt =====
-- What the endpoints for locations have done, by their replies.
use uber.Base.{String, Option, true, ◌∷◌, ◌≡◌, ◌⊎◌, inl, inr, arith, Option-cases, Bool-cases}
use uber.Events.{Bytes}
use uber.Http.{json}
use uber.Redis.{Location, Geo, IsRedis, remove_member, set_driver_location}
use uber.Auth.Tokens.{Claims}
use uber.Validation.{validate_coordinates}
use uber.Drivers.Locations.{LocationDeps, error, status, update_location, handle_update_location}

module _ (d : LocationDeps) (laws : IsRedis d.redis) where
  -- The location of a driver is stored, with a Redis as documented: a 200 means that the place is
  -- within bounds and that it is the driver's only one in the set, the others as they were; a 400
  -- changes nothing; and the only other answer is 500.
  pub handle_update_location_lem :
      (driver : String) (body : Bytes) (context : Option Claims) (g : Geo)
      → let out = handle_update_location d driver body context g in
        let loc = (d.decode_location body).0 in
        ((out.1 ≡ json 200 (status "location_updated"))
          × (validate_coordinates d.go loc.lat loc.lng ≡ true)
          × (out.0.members
              ≡ record { name = driver; longitude = loc.lng; latitude = loc.lat }
                ∷ remove_member driver g.members))
        ⊎ (((e : String) × (out ≡ (g, json 400 (error e))))
            ⊎ ((e : String) × (out.1 ≡ json 500 (error e))))
  unfolding handle_update_location update_location set_driver_location
  handle_update_location_lem driver body context g =
      let loc = (d.decode_location body).0 in
      let x : Location = record { name = driver; longitude = loc.lng; latitude = loc.lat } in
      elim (Option-cases (d.decode_location body).1) [
        | inr (e, failed) ↦ inr (inl ("invalid body", ground (arith, failed)))
        | inl decoded ↦ elim (Bool-cases (validate_coordinates d.go loc.lat loc.lng)) [
          | inr bad ↦ inr (inl ("invalid coordinates", ground (arith, decoded, bad)))
          | inl good ↦ elim (Option-cases (d.redis.geo_add x g).1) [
            | inr (e, refused) ↦ inr (inr (e, ground (arith, decoded, good, refused)))
            | inl done ↦ inl (
              ground (arith, decoded, good, done),
              good,
              ground (arith, decoded, good, laws.add_ok x g done),
            )
          ]
        ]
      ]
