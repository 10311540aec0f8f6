-- ===== src/Tracking/Sound.antt =====
-- The hub's invariant: each trip has an array of its own. A write to one trip's array is seen by
-- that trip alone.
use text.Mathlib.Text.{◌==◌}
use text.Mathlib.TextEquality.{eq_iff}
use uber.Base.{
  ℕ, ◌≤◌, ◌<◌, String, some, false, List, [], take, length, eqb, if◌then◌else◌, lookup, insert,
  lookup-insert, ◌≡◌, refl, arith, Option-cases,
}
use uber.Tracking.Hub.{Hub, Slice, Conn, write, or_nil, snapshot, subscribers, new_hub}

pub record IsSound (h : Hub) : Type 0 where
  pub nil_empty : h.arrays 0 ≡ []
  pub fresh_pos : 0 < h.fresh
  pub fits :
      (k : String) (s : Slice)
      → lookup k h.conns ≡ some s
      → (0 < s.ref) × (s.ref < h.fresh) × (s.len ≤ length (h.arrays s.ref))
  pub apart :
      (k j : String) (s t : Slice)
      → lookup k h.conns ≡ some s
      → lookup j h.conns ≡ some t
      → (k == j) ≡ false
      → eqb s.ref t.ref ≡ false

-- No trip is kept with no subscriber.
abbrev pub HasNoEmpty : Hub → Type 0
HasNoEmpty h = (k : String) (s : Slice) → lookup k h.conns ≡ some s → 0 < s.len

pub new_hub-IsSound : IsSound new_hub
unfolding new_hub lookup
new_hub-IsSound = record {
  nil_empty = refl;
  fresh_pos = omega arith;
  fits = λ k s e. cc;
  apart = λ k j s t e. cc;
}

-- A hub with the slice of one trip and its array written.
abbrev pub put : String → ℕ → ℕ → List Conn → ℕ → Hub → Hub
put k r n cells fresh h = record {
  arrays = write r cells h.arrays;
  fresh = fresh;
  conns = insert k (record { ref = r; len = n }) h.conns;
}

-- No other trip stands in this array.
abbrev pub Owns : String → ℕ → Hub → Type 0
Owns k r h =
    (j : String) (s : Slice) → lookup j h.conns ≡ some s → (k == j) ≡ false → eqb r s.ref ≡ false

module _ (k : String) (r n : ℕ) (cells : List Conn) (fresh : ℕ) (h : Hub) (sound : IsSound h) where
  pub put-IsSound :
      Owns k r h
      → 0 < r
      → r < fresh
      → h.fresh ≤ fresh
      → n ≤ length cells
      → IsSound (put k r n cells fresh h)
  put-IsSound owns pos below grows fit = record {
    nil_empty = ground (arith, sound.nil_empty);
    fresh_pos = omega arith;
    fits = λ j s e.
        ground (
          arith,
          lookup-insert k j (record { ref = r; len = n }) h.conns,
          sound.fits j s,
          owns j s,
        );
    apart = λ i j s t e f ne. ground (
      arith,
      lookup-insert k i (record { ref = r; len = n }) h.conns,
      lookup-insert k j (record { ref = r; len = n }) h.conns,
      sound.apart i j s t,
      owns i s,
      owns j t,
      eq_iff k i,
      eq_iff k j,
      eq_iff i j,
    );
  }

  pub subscribers-put :
      Owns k r h
      → (j : String)
      → subscribers j (put k r n cells fresh h) ≡ (if k == j then take n cells else subscribers j h)
  unfolding subscribers snapshot
  subscribers-put owns j = ground (
    arith,
    lookup-insert k j (record { ref = r; len = n }) h.conns,
    Option-cases (lookup j h.conns),
    owns j (or_nil (lookup j h.conns)),
  )

pub new_hub-HasNoEmpty : HasNoEmpty new_hub
unfolding new_hub lookup
new_hub-HasNoEmpty k s e = cc
