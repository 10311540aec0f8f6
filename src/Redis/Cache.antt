-- ===== src/Redis/Cache.antt =====
-- `CacheTrip` and `GetCachedTrip` of ride-service/pkg/redis/client.go. What the server does with a
-- pipeline and with HGETALL is the parameter `RedisHashes`; `IsRedisHashes` is what its
-- documentation says of HSET, EXPIRE and HGETALL. The server's time is an argument.
use Prim.Native.String.{◌++◌ as ◌<>◌}
use uber.Base.{
  ℕ, ◌+◌, String, Time, Option, none, some, Bool, false, List, [], ◌∷◌, ◌≡◌, Result, ok, leb,
  if◌then◌else◌, Entries, lookup, insert,
}
use uber.Auth.Tokens.{day}

-- A hash, and when it expires.
pub record Hash : Type 0 where
  pub fields : Entries String
  pub expires : Option Time

pub record Hashes : Type 0 where
  pub keys : Entries Hash
  pub hidden : ℕ

pub data Command : Type 0 where
  h_set : (key : String) → Entries String → Command
  expire : (key : String) (ttl : ℕ) → Command

abbrev pub is_over : Time → Option Time → Bool
is_over now none = false
is_over now (some t) = leb t now

abbrev pub unless_over : Time → Hash → Option Hash
unless_over now h = if is_over now h.expires then none else some h

-- The hash at a key; one that has expired is not there.
abbrev pub current : Time → String → Entries Hash → Option Hash
current now key m = elim (lookup key m) [ none ↦ none | some h ↦ unless_over now h ]

abbrev pub fields_of : Option Hash → Entries String
fields_of none = []
fields_of (some h) = h.fields

abbrev pub expiry_of : Option Hash → Option Time
expiry_of none = none
expiry_of (some h) = h.expires

-- The fields of a hash after HSET: those that are not set stay.
abbrev pub set_fields : (new old : Entries String) → Entries String
set_fields [] old = old
set_fields ((f, v) ∷ new) old = insert f v (set_fields new old)

abbrev pub run_command : Time → Command → Entries Hash → Entries Hash
run_command now (h_set key new) m =
    let old = current now key m in
    insert key (record { fields = set_fields new (fields_of old); expires = expiry_of old }) m
run_command now (expire key ttl) m = elim (current now key m) [
  | none ↦ m
  | some h ↦ insert key (record h { expires = some (now + ttl) }) m
]

abbrev pub run_commands : Time → List Command → Entries Hash → Entries Hash
run_commands now [] m = m
run_commands now (c ∷ cs) m = run_commands now cs (run_command now c m)

pub record RedisHashes : Type 0 where
  pub exec : Time → List Command → Hashes → Hashes × Option String
  pub h_get_all : Time → String → Hashes → Result (Entries String)

-- A pipeline without an error has run each of its commands, in their order.
pub record IsRedisHashes (r : RedisHashes) : Type 0 where
  pub exec_ok :
      (now : Time) (cs : List Command) (h : Hashes)
      → (r.exec now cs h).1 ≡ none
      → (r.exec now cs h).0.keys ≡ run_commands now cs h.keys
  pub get_ok :
      (now : Time) (key : String) (h : Hashes) (m : Entries String)
      → r.h_get_all now key h ≡ ok m
      → m ≡ fields_of (current now key h.keys)

abbrev pub trip_key : String → String
trip_key trip_id = "trip:" <> trip_id

module _ (r : RedisHashes) where
  unfoldable pub cache_trip :
      Time → (trip_id : String) → Entries String → Hashes → Hashes × Option String
  cache_trip now trip_id data' =
      r.exec now (h_set (trip_key trip_id) data' ∷ expire (trip_key trip_id) day ∷ [])

  unfoldable pub get_cached_trip : Time → (trip_id : String) → Hashes → Result (Entries String)
  get_cached_trip now trip_id = r.h_get_all now (trip_key trip_id)
