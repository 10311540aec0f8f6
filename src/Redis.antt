-- ===== src/Redis.antt =====
-- ride-service/pkg/redis/client.go: the set of driver locations. What the server does is the
-- parameter `Redis`; `IsRedis` is what its documentation says of GEOADD, GEOSEARCH and ZREM.
pub mod Connect
pub mod Cache
pub mod Cached
mod Tests
pub mod Everywhere
use text.Mathlib.Text.{◌==◌}
use uber.Base.{
  ℕ, ◌≤◌, String, Float, Option, none, Bool, true, false, List, [], ◌∷◌, ◌≡◌, ◌⊎◌, Result, ok, err,
  if◌then◌else◌, All, length,
}

pub record Location : Type 0 where
  pub name : String
  pub longitude : Float
  pub latitude : Float

-- The members of `driver:locations`, and whatever else decides whether a command fails.
pub record Geo : Type 0 where
  pub members : List Location
  pub hidden : ℕ

pub record Query : Type 0 where
  pub longitude : Float
  pub latitude : Float
  pub radius : Float
  pub radius_unit : String
  pub count : ℕ
  pub sort : String

pub record Redis : Type 0 where
  -- the distance of a place from a location, and whether it is within a radius given with its unit
  pub distance : (longitude latitude : Float) → Location → ℕ
  pub within : Query → Location → Bool
  pub geo_add : Location → Geo → Geo × Option String
  pub geo_search : Query → Geo → Result (List String)
  pub z_rem : String → Geo → Geo × Option String

abbrev pub remove_member : String → List Location → List Location
remove_member name [] = []
remove_member name (x ∷ xs) =
    let rest = remove_member name xs in if x.name == name then rest else x ∷ rest

abbrev pub IsMember : Location → List Location → Type 0
IsMember x [] = ⊥
IsMember x (y ∷ ys) = (x ≡ y) ⊎ IsMember x ys

-- The names of members in range, no more than asked for, the nearest first where the query asks
-- for the ascending order.
pub record IsAnswer (r : Redis) (q : Query) (members : List Location) (names : List String)
    : Type 0 where
  pub in_range :
      All (λ n. (x : Location) × IsMember x members × (x.name ≡ n) × (r.within q x ≡ true)) names
  pub at_most : length names ≤ q.count
  pub empty : names ≡ [] → 1 ≤ q.count → (y : Location) → IsMember y members → r.within q y ≡ false
  pub first :
      (n : String) (rest : List String)
      → q.sort ≡ "ASC"
      → names ≡ n ∷ rest
      → (x : Location) × IsMember x members
        × (x.name ≡ n)
        × ((y : Location)
            → IsMember y members
            → r.within q y ≡ true
            → r.distance q.longitude q.latitude x ≤ r.distance q.longitude q.latitude y)

pub record IsRedis (r : Redis) : Type 0 where
  pub add_ok :
      (x : Location) (g : Geo)
      → (r.geo_add x g).1 ≡ none
      → (r.geo_add x g).0.members ≡ x ∷ remove_member x.name g.members
  pub search_ok :
      (q : Query) (g : Geo) (names : List String)
      → r.geo_search q g ≡ ok names
      → IsAnswer r q g.members names
  pub remove_ok :
      (name : String) (g : Geo)
      → (r.z_rem name g).1 ≡ none
      → (r.z_rem name g).0.members ≡ remove_member name g.members

module _ (r : Redis) where
  unfoldable pub set_driver_location : String → (lat lng : Float) → Geo → Geo × Option String
  set_driver_location driver_id lat lng =
      r.geo_add (record { name = driver_id; longitude = lng; latitude = lat })

  unfoldable pub get_nearby_drivers : (lat lng radius_km : Float) → ℕ → Geo → Result (List String)
  get_nearby_drivers lat lng radius_km count g =
      elim (r.geo_search
        (record {
          longitude = lng;
          latitude = lat;
          radius = radius_km;
          radius_unit = "km";
          count = count;
          sort = "ASC";
        })
        g) [ ok names ↦ ok names | err e ↦ err e ]

  unfoldable pub remove_driver_location : String → Geo → Geo × Option String
  remove_driver_location driver_id = r.z_rem driver_id
