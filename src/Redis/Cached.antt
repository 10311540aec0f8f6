-- ===== src/Redis/Cached.antt =====
-- What `GetCachedTrip` reads back (ride-service/pkg/redis/client.go).
use text.Mathlib.TextEquality.{eq_iff}
use uber.Base.{
  ℕ, ◌+◌, ◌<◌, ◌≤◌, String, Time, Option, none, some, Bool, false, [], ◌∷◌, ◌≡◌, refl, arith, ok,
  leb, if◌then◌else◌, Entries, lookup, insert, lookup-insert, Option-cases, Bool-cases, inl, inr,
  ap, ◌∙◌, ◌⊎◌,
}
use uber.Auth.Tokens.{day}
use uber.Redis.Cache.{
  Hash, Hashes, h_set, expire, is_over, unless_over, current, fields_of, expiry_of, set_fields,
  run_command, run_commands, RedisHashes, IsRedisHashes, trip_key, cache_trip, get_cached_trip,
}

abbrev pub or_else : Option String → Option String → Option String
or_else (some v) old = some v
or_else none old = old

lookup-set_fields :
    (f : String) (new old : Entries String)
    → lookup f (set_fields new old) ≡ or_else (lookup f new) (lookup f old)
unfolding lookup
lookup-set_fields f [] old = refl
lookup-set_fields f ((g, v) ∷ new) old =
    lookup-insert g f v (set_fields new old) ∙ ground (arith, lookup-set_fields f new old)

lookup-insert_same :
    {V : Type 0} (k : String) (v : V) (m : Entries V) → lookup k (insert k v m) ≡ some v
lookup-insert_same k v m = lookup-insert k k v m ∙ ground (arith, eq_iff k k)

-- A hash that is there has not expired.
current_fresh :
    (now : Time) (key : String) (m : Entries Hash)
    → is_over now (expiry_of (current now key m)) ≡ false
current_fresh now key m = elim (Option-cases (lookup key m)) [
  | inl absent ↦ ground (arith, absent)
  | inr (h, present) ↦ elim (Bool-cases (is_over now h.expires)) [
    | inl over ↦ ground (arith, present, over)
    | inr fresh ↦ ground (arith, present, fresh)
  ]
]

current_at :
    (now : Time) (key : String) (h : Hash) (m : Entries Hash)
    → lookup key m ≡ some h
    → current now key m ≡ unless_over now h
current_at now key h m there = ground (arith, there)

lookup-expire :
    (now : Time) (key : String) (ttl : ℕ) (h : Hash) (m : Entries Hash)
    → lookup key m ≡ some h
    → is_over now h.expires ≡ false
    → lookup key (run_command now (expire key ttl) m)
      ≡ some (record h { expires = some (now + ttl) })
lookup-expire now key ttl h m there fresh =
    let h' : Hash = record h { expires = some (now + ttl) } in
    ground (arith, there, fresh, lookup-insert_same key h' m)

-- The hash at the key behind HSET and EXPIRE.
lookup-run_commands :
    (now : Time) (key : String) (ttl : ℕ) (new : Entries String) (m : Entries Hash)
    → lookup key (run_commands now (h_set key new ∷ expire key ttl ∷ []) m)
      ≡ some (record {
        fields = set_fields new (fields_of (current now key m));
        expires = some (now + ttl);
      })
lookup-run_commands now key ttl new m =
    let old = current now key m in
    let h : Hash = record { fields = set_fields new (fields_of old); expires = expiry_of old } in
    lookup-expire now key ttl h (insert key h m) (lookup-insert_same key h m)
      (current_fresh now key m)

module _ (r : RedisHashes) (laws : IsRedisHashes r) where
  -- With a Redis as documented: after a `CacheTrip` without an error, a `GetCachedTrip` that
  -- succeeds within the next 24 hours, with no other command in between, finds each field that was
  -- given with its new value and each other field as it was before; from then on it finds none.
  pub get_cached_trip-cache_trip :
      (now later : Time) (trip_id : String) (fields found : Entries String) (h : Hashes)
      → (cache_trip r now trip_id fields h).1 ≡ none
      → get_cached_trip r later trip_id (cache_trip r now trip_id fields h).0 ≡ ok found
      → ((later < now + day)
          × ((f : String)
              → lookup f found
                ≡ or_else
                    (lookup f fields)
                    (lookup f (fields_of (current now (trip_key trip_id) h.keys)))))
        ⊎ ((now + day ≤ later) × (found ≡ []))
  unfolding cache_trip get_cached_trip
  get_cached_trip-cache_trip now later trip_id fields found h stored read =
      let key = trip_key trip_id in
      let after =
        ap (lookup key) (laws.exec_ok now (h_set key fields ∷ expire key day ∷ []) h stored)
        ∙ lookup-run_commands now key day fields h.keys in
      let same = laws.get_ok later key (cache_trip r now trip_id fields h).0 found read in
      let all = set_fields fields (fields_of (current now key h.keys)) in
      let cached : Hash = record { fields = all; expires = some (now + day) } in
      let left = λ (over : Bool). fields_of (if over then none else some cached) in
      let is : found ≡ left (leb (now + day) later) =
        same ∙ ap fields_of (current_at later key cached _ after) in
      elim (Bool-cases (leb (now + day) later)) [
        | inl over ↦ inr (ground (arith, over), is ∙ ap left over)
        | inr fresh ↦ inl (
          ground (arith, fresh),
          λ f.
              ap (lookup f) (is ∙ ap left fresh)
              ∙ lookup-set_fields f fields (fields_of (current now key h.keys)),
        )
      ]
