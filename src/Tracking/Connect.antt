-- ===== src/Tracking/Connect.antt =====
-- `HandleWS` adds its connection to the subscribers of its trip and to no other's.
use text.Mathlib.Text.{◌==◌}
use uber.Base.{
  ℕ, suc, ◌+◌, ◌≤◌, ◌<◌, String, List, [], ◌∷◌, ◌++◌, take, drop, length, ltb, if◌then◌else◌,
  lookup, lookup-insert, ◌≡◌, refl, arith, Bool-cases, inl, inr, Option-cases, length-append,
  length-take, take-append_one,
}
use uber.Tracking.Hub.{Hub, Conn, or_nil, padding, snapshot, subscribers, connect}
use uber.Tracking.Sound.{IsSound, HasNoEmpty, put, Owns, put-IsSound, subscribers-put}

module _ (trip : String) (h : Hub) (sound : IsSound h) where
  -- The slice of a trip lies in its array, and in no other trip's.
  pub snapshot_fits : (snapshot trip h).len ≤ length (h.arrays (snapshot trip h).ref)
  unfolding snapshot
  snapshot_fits =
      ground
        (arith, Option-cases (lookup trip h.conns), sound.fits trip (or_nil (lookup trip h.conns)))

  pub snapshot_old : (snapshot trip h).ref < h.fresh
  unfolding snapshot
  snapshot_old = ground (
    arith,
    Option-cases (lookup trip h.conns),
    sound.fits trip (or_nil (lookup trip h.conns)),
    sound.fresh_pos,
  )

  pub snapshot-Owns : 0 < (snapshot trip h).ref → Owns trip (snapshot trip h).ref h
  unfolding snapshot
  snapshot-Owns pos j s e ne = ground (
    arith,
    Option-cases (lookup trip h.conns),
    sound.apart trip j (or_nil (lookup trip h.conns)) s,
  )

  -- Only an array that has cells is a trip's own.
  pub snapshot_pos : 0 < length (h.arrays (snapshot trip h).ref) → 0 < (snapshot trip h).ref
  unfolding snapshot
  snapshot_pos pos = ground (
    arith,
    Option-cases (lookup trip h.conns),
    sound.fits trip (or_nil (lookup trip h.conns)),
    sound.nil_empty,
  )

  fresh_Owns : Owns trip h.fresh h
  fresh_Owns j s e ne = ground (arith, sound.fits j s)

  module _ (spare : ℕ) (c : Conn) where
    -- The cells that an append writes, and where.
    abbrev grown : List Conn → List Conn
    grown more = take (snapshot trip h).len (h.arrays (snapshot trip h).ref) ++ (c ∷ more)

    -- An append is a write to an array that is the trip's own.
    data IsAppend (h' : Hub) : Type 0 where
      append :
          (r fresh : ℕ) (more : List Conn)
          → Owns trip r h
          → (0 < r) × (r < fresh) × (h.fresh ≤ fresh)
          → h' ≡ put trip r (suc (snapshot trip h).len) (grown more) fresh h
          → IsAppend h'

    connect-IsAppend : IsAppend (connect spare trip c h)
    unfolding connect
    connect-IsAppend =
        elim (Bool-cases (ltb (snapshot trip h).len (length (h.arrays (snapshot trip h).ref)))) [
          | inl room ↦
              let pos = snapshot_pos (ground (arith, room)) in
              append (snapshot trip h).ref h.fresh
                (drop ((snapshot trip h).len + 1) (h.arrays (snapshot trip h).ref))
                (snapshot-Owns pos) (pos, snapshot_old, omega arith) (ground (arith, room))
          | inr full ↦
              append h.fresh (h.fresh + 1) (padding spare) fresh_Owns
                (sound.fresh_pos, omega arith, omega arith) (ground (arith, full))
        ]

    length-grown : (more : List Conn) → suc (snapshot trip h).len ≤ length (grown more)
    length-grown more = omega (
      arith,
      snapshot_fits,
      length-append {0} (take (snapshot trip h).len (h.arrays (snapshot trip h).ref)) (c ∷ more),
      length-take {0} (snapshot trip h).len (h.arrays (snapshot trip h).ref) snapshot_fits,
    )

    pub connect-IsSound : IsSound (connect spare trip c h)
    connect-IsSound = elim connect-IsAppend [
      | append r fresh more owns bounds e ↦ rw e (
          put-IsSound trip r (suc (snapshot trip h).len) (grown more) fresh h sound owns bounds.0
            bounds.1 bounds.2 (length-grown more))
    ]

    -- The subscribers of the trip are those it had with the new one behind; every other trip has
    -- the subscribers that it had. So for an append in place and for one that moves the array.
    pub subscribers-connect :
        (j : String)
        → subscribers j (connect spare trip c h)
          ≡ (if trip == j then subscribers trip h ++ c ∷ [] else subscribers j h)
    subscribers-connect j = elim connect-IsAppend [
      | append r fresh more owns bounds e ↦
          rw
            (
              e,
              subscribers-put trip r (suc (snapshot trip h).len) (grown more) fresh h sound owns j,
              take-append_one (snapshot trip h).len (h.arrays (snapshot trip h).ref) c more
                  snapshot_fits,
            )
            (unfold subscribers in refl)
    ]

    pub connect-HasNoEmpty : HasNoEmpty h → HasNoEmpty (connect spare trip c h)
    connect-HasNoEmpty busy = elim connect-IsAppend [
      | append r fresh more owns bounds e ↦ rw e (λ k s at. ground (
        arith,
        lookup-insert trip k (record { ref = r; len = suc (snapshot trip h).len }) h.conns,
        busy k s,
      ))
    ]
