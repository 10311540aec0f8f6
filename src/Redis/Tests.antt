-- ===== src/Redis/Tests.antt =====
-- Connecting to a Redis that answers in its fourth round, and to one that never does; a cached
-- trip.
use uber.Base.{
  ℕ, ◌+◌, ◌<◌, ◌≤◌, String, Option, none, some, [], ◌∷◌, ◌≡◌, refl, ◌⊎◌, arith, ok, err, eqb,
  if◌then◌else◌, Entries, lookup, insert, delete,
}
use uber.Auth.Tokens.{day}
use uber.Redis.Connect.{new_client, new_client_from}
use uber.Redis.Cache.{
  Hashes, run_commands, current, fields_of, RedisHashes, IsRedisHashes, trip_key, cache_trip,
  get_cached_trip,
}
use uber.Redis.Cached.{or_else, get_cached_trip-cache_trip}

abbrev fourth : ℕ → Option String
fourth i = if eqb i 3 then none else some "connection refused"

connects : new_client {Client = ℕ} 7 fourth ≡ record { slept = 6; result = ok 7 }
unfolding new_client new_client_from
connects = refl

gives_up :
    new_client {Client = ℕ} 7 (λ i. some "no route")
    ≡ record { slept = 40; result = err "redis: failed to connect after 20 attempts" }
unfolding new_client new_client_from
gives_up = refl

abbrev hashes : RedisHashes
hashes = record {
  exec = λ now cs h. (record h { keys = run_commands now cs h.keys }, none);
  h_get_all = λ now key h. ok (fields_of (current now key h.keys));
}

hashes-IsRedisHashes : IsRedisHashes hashes
hashes-IsRedisHashes = record {
  exec_ok = λ now cs h e. refl;
  get_ok = λ now key h m e. ground arith;
}

-- A trip whose fare was cached before.
abbrev cached : Hashes
cached = record {
  keys = ("trip:t1", record { fields = ("fare", "170") ∷ []; expires = none }) ∷ [];
  hidden = 0;
}

abbrev status : Entries String
status = ("status", "COMPLETED") ∷ []

abbrev both : Entries String
both = ("status", "COMPLETED") ∷ ("fare", "170") ∷ []

reads : get_cached_trip hashes 9 "t1" (cache_trip hashes 5 "t1" status cached).0 ≡ ok both
unfolding get_cached_trip cache_trip lookup insert delete
reads = refl

get_cached_trip-cache_trip_example :
    ((9 < 5 + day)
      × ((f : String)
          → lookup f both
            ≡ or_else
                (lookup f status)
                (lookup f (fields_of (current 5 (trip_key "t1") cached.keys)))))
    ⊎ ((5 + day ≤ 9) × (both ≡ []))
unfolding cache_trip
get_cached_trip-cache_trip_example =
    get_cached_trip-cache_trip hashes hashes-IsRedisHashes 5 9 "t1" status both cached refl reads
