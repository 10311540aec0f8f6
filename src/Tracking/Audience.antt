-- ===== src/Tracking/Audience.antt =====
-- The hub and the running calls of `HandleWS` together.
use text.Mathlib.Text.{◌==◌}
use text.Mathlib.TextEquality.{eq_iff}
use uber.Base.{
  ℕ, ◌<◌, String, List, [], ◌∷◌, ◌++◌, ◌≡◌, refl, arith, sym, ap, ◌∙◌, append-nil, All-append,
  All-split, All-replace, eqb_refl, true, false, Bool, ◌&&◌, if◌then◌else◌, lookup, some, length,
  Bool-cases, inl, inr,
}
use uber.Tracking.Hub.{Conn, Hub, Slice, subscribers, snapshot}
use uber.Tracking.Sessions.{
  Phase, reading, leaving, removed, Session, Room, IsNewConn, enter, Moves, reads, fails, removes,
  closes,
}
use uber.Tracking.Refinement.{IsReachable}
use uber.Tracking.Connect.{connect-IsSound, subscribers-connect, connect-HasNoEmpty}
use uber.Tracking.Remove.{
  erase, length-subscribers, remove_conn-IsSound, subscribers-remove_conn, remove_conn-HasNoEmpty,
}

-- A call that has not taken its connection out.
abbrev pub is_in : Phase → Bool
is_in reading = true
is_in leaving = true
is_in removed = false

-- The connections of the calls for a trip that are in, the first to come first.
abbrev pub present : String → List Session → List Conn
present j [] = []
present j (x ∷ xs) =
    let rest = present j xs in if x.trip == j && is_in x.phase then x.conn ∷ rest else rest

-- No connection is in two calls.
abbrev pub IsDistinct : List Session → Type 0
IsDistinct [] = Unit
IsDistinct (x ∷ xs) = IsNewConn x.conn xs × IsDistinct xs

pub record IsServed (r : Room) : Type 0 where
  pub reachable : IsReachable r.hub
  pub distinct : IsDistinct r.sessions
  pub heard : (j : String) → subscribers j r.hub ≡ present j r.sessions

present-append :
    (j : String) (xs ys : List Session) → present j (xs ++ ys) ≡ present j xs ++ present j ys
present-append j [] ys = refl
present-append j (x ∷ xs) ys = ground (arith, present-append j xs ys)

IsDistinct-append :
    (xs : List Session) (x : Session)
    → IsDistinct xs
    → IsNewConn x.conn xs
    → IsDistinct (xs ++ x ∷ [])
IsDistinct-append [] x d n = (tt, tt)
IsDistinct-append (y ∷ xs) x d n =
    (All-append _ xs (x ∷ []) d.0 (ground arith, tt), IsDistinct-append xs x d.1 n.1)

-- A call that moves on is in no other order and has the same connection.
IsDistinct-phase :
    (before : List Session) (x : Session) (after : List Session) (p : Phase)
    → IsDistinct (before ++ (x ∷ after))
    → IsDistinct (before ++ (record x { phase = p } ∷ after))
IsDistinct-phase [] x after p d = d
IsDistinct-phase (y ∷ before) x after p d =
    let (at, _) = All-split _ before x after d.0 in
    (
      All-replace _ before x (record x { phase = p }) after at d.0,
      IsDistinct-phase before x after p d.1,
    )

IsDistinct-drop :
    (before : List Session) (x : Session) (after : List Session)
    → IsDistinct (before ++ (x ∷ after))
    → IsDistinct (before ++ after)
IsDistinct-drop [] x after d = d.1
IsDistinct-drop (y ∷ before) x after d =
    ((All-split _ before x after d.0).1, IsDistinct-drop before x after d.1)

present_same :
    (j : String) (before : List Session) (x y : Session) (after : List Session)
    → (y.trip ≡ x.trip) × (y.conn ≡ x.conn) × (is_in y.phase ≡ is_in x.phase)
    → present j (before ++ (y ∷ after)) ≡ present j (before ++ (x ∷ after))
present_same j [] x y after e = ground arith
present_same j (z ∷ before) x y after e = ground (arith, present_same j before x y after e)

present_gone :
    (j : String) (before : List Session) (x : Session) (after : List Session)
    → (x.trip == j && is_in x.phase) ≡ false
    → present j (before ++ (x ∷ after)) ≡ present j (before ++ after)
present_gone j [] x after e = ground arith
present_gone j (z ∷ before) x after e = ground (arith, present_gone j before x after e)

-- To take a connection out of those present is to take its call out.
erase-present :
    (before : List Session) (x : Session) (after : List Session)
    → IsDistinct (before ++ (x ∷ after))
    → is_in x.phase ≡ true
    → erase x.conn (present x.trip (before ++ (x ∷ after))) ≡ present x.trip (before ++ after)
erase-present [] x after d e = ground (arith, eqb_refl x.conn, eq_iff x.trip x.trip)
erase-present (y ∷ before) x after d e =
    let (at, _) = All-split _ before x after d.0 in
    ground (arith, at, erase-present before x after d.1 e)

present_entered :
    (j trip : String) (c : Conn) (xs : List Session)
    → (if trip == j then present trip xs ++ c ∷ [] else present j xs)
      ≡ present j (xs ++ record { trip = trip; conn = c; phase = reading } ∷ [])
present_entered j trip c xs =
    rw (present-append j xs (record { trip = trip; conn = c; phase = reading } ∷ []))
      (elim (Bool-cases (trip == j)) [
        | inl same ↦ rw (same, (eq_iff trip j).0 same) refl
        | inr other ↦ rw other (sym (append-nil (present j xs)))
      ])

-- What a departure leaves in the specification.
present_left :
    (j : String) (before : List Session) (x : Session) (after : List Session)
    → IsDistinct (before ++ (x ∷ after))
    → x.phase ≡ leaving
    → (if x.trip == j
        then erase x.conn (present x.trip (before ++ (x ∷ after)))
        else present j (before ++ (x ∷ after)))
      ≡ present j (before ++ (record x { phase = removed } ∷ after))
present_left j before x after d p = elim (Bool-cases (x.trip == j)) [
  | inl same ↦ rw (← ((eq_iff x.trip j).0 same)) (
      rw ((eq_iff x.trip x.trip).1 refl) (
        erase-present before x after d (rw p refl)
        ∙ sym (present_gone x.trip before (record x { phase = removed }) after (ground arith))))
  | inr other ↦ rw other (
      present_gone j before x after (ground (arith, other))
      ∙ sym (present_gone j before (record x { phase = removed }) after (ground (arith, other))))
]

pub enter-IsServed :
    (spare : ℕ) (trip : String) (c : Conn) (r : Room)
    → IsNewConn c r.sessions
    → IsServed r
    → IsServed (enter spare trip c r)
unfolding enter
enter-IsServed spare trip c r new s = record {
  reachable = record {
    sound = connect-IsSound trip r.hub s.reachable.sound spare c;
    busy = connect-HasNoEmpty trip r.hub s.reachable.sound spare c s.reachable.busy;
  };
  distinct = IsDistinct-append r.sessions _ s.distinct new;
  heard = λ j.
      subscribers-connect trip r.hub s.reachable.sound spare c j
      ∙ (rw (s.heard j, s.heard trip) (present_entered j trip c r.sessions));
}

-- A step of a call keeps the hub and the calls together.
pub Moves-IsServed : {r r' : Room} → Moves r r' → IsServed r → IsServed r'
Moves-IsServed (reads before x after split p e) s = rw e s
Moves-IsServed {r} (fails before x after split p e) s = rw e (record {
  reachable = s.reachable;
  distinct = IsDistinct-phase before x after leaving (rw split at s.distinct);
  heard = λ j.
      s.heard j
      ∙ rw split
          (sym (present_same j before x (record x { phase = leaving }) after (ground arith)));
})
Moves-IsServed {r} (removes before x after split p e) s = rw e (record {
  reachable = record {
    sound = remove_conn-IsSound x.trip x.conn r.hub s.reachable.sound;
    busy = remove_conn-HasNoEmpty x.trip x.conn r.hub s.reachable.sound s.reachable.busy;
  };
  distinct = IsDistinct-phase before x after removed (rw split at s.distinct);
  heard = λ j.
      subscribers-remove_conn x.trip x.conn r.hub s.reachable.sound j
      ∙ (rw (s.heard j, s.heard x.trip, split)
          (present_left j before x after (rw split at s.distinct) p));
})
Moves-IsServed {r} (closes before x after split p e) s = rw e (record {
  reachable = s.reachable;
  distinct = IsDistinct-drop before x after (rw split at s.distinct);
  heard = λ j. s.heard j ∙ rw split (present_gone j before x after (ground arith));
})

lookup-head :
    {V : Type 0} (j : String) (v : V) (m : List (String × V)) → lookup j ((j, v) ∷ m) ≡ some v
unfolding lookup
lookup-head j v m = rw ((eq_iff j j).1 refl) refl

kept_heard :
    (h : Hub)
    → IsReachable h
    → (j : String) (s : Slice) → lookup j h.conns ≡ some s
    → 0 < length (subscribers j h)
unfolding snapshot
kept_heard h reachable j s at =
    ground (arith, length-subscribers j 0 h reachable.sound, reachable.busy j s)

-- A hub that keeps no trip without a subscriber keeps none when nobody is subscribed.
pub conns_of_nobody :
    (h : Hub) (kept : List (String × Slice))
    → IsReachable h
    → h.conns ≡ kept
    → ((j : String) → subscribers j h ≡ [])
    → kept ≡ []
conns_of_nobody h [] reachable e nobody = refl
conns_of_nobody h ((j, s) ∷ rest) reachable e nobody =
    let at : lookup j h.conns ≡ some s = rw e (lookup-head j s rest) in
    absurd (omega (arith, kept_heard h reachable j s at, ap length (nobody j)))
