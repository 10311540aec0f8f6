-- ===== src/Tracking/Remove.antt =====
-- `removeConn` takes its connection out of the subscribers of its trip, and leaves no empty entry.
use text.Mathlib.Text.{◌==◌}
use text.Mathlib.TextEquality.{eq_iff}
use uber.Base.{
  ℕ, zero, suc, ◌+◌, ◌-◌, ◌<◌, String, none, some, false, List, [], ◌∷◌, ◌++◌, take, drop, length,
  eqb, eqb_refl, if◌then◌else◌, lookup, delete, lookup-insert, lookup-delete, ◌≡◌, refl, arith,
  Bool-cases, inl, inr, Option-cases, length-append, length-take, take-length,
}
use uber.Tracking.Hub.{
  Hub, Slice, Conn, snapshot, subscribers, index_of, remove_found, drop_empty, remove_conn,
}
use uber.Tracking.Sound.{IsSound, HasNoEmpty, put, put-IsSound, subscribers-put}
use uber.Tracking.Connect.{snapshot_fits, snapshot_old, snapshot-Owns, snapshot_pos}

-- A list with the first occurrence of a connection taken out.
abbrev pub erase : Conn → List Conn → List Conn
erase c [] = []
erase c (x ∷ xs) = let rest = erase c xs in if eqb x c then xs else x ∷ rest

erase_of_none : (c : Conn) (xs : List Conn) → index_of c xs ≡ none → erase c xs ≡ xs
unfolding index_of
erase_of_none c [] e = refl
erase_of_none c (x ∷ xs) e = ground (arith, erase_of_none c xs)

pub erase_of_some :
    (c : Conn) (xs : List Conn) (i : ℕ)
    → index_of c xs ≡ some i
    → (take i xs ++ drop (suc i) xs ≡ erase c xs) × (length (erase c xs) + 1 ≡ length xs)
unfolding index_of
erase_of_some c [] i e = cc
erase_of_some c (x ∷ xs) zero e = ground arith
erase_of_some c (x ∷ xs) (suc k) e = ground (arith, erase_of_some c xs k)

-- The first occurrence, by the list in front of it.
pub index_of-append :
    (c : Conn) (xs ys : List Conn)
    → index_of c xs ≡ none
    → index_of c (xs ++ (c ∷ ys)) ≡ some (length xs)
unfolding index_of
index_of-append c [] ys e = rw eqb_refl
index_of-append c (x ∷ xs) ys e = ground (arith, index_of-append c xs ys)

pub erase-append :
    (c : Conn) (xs ys : List Conn) → index_of c xs ≡ none → erase c (xs ++ (c ∷ ys)) ≡ xs ++ ys
unfolding index_of
erase-append c [] ys e = rw eqb_refl
erase-append c (x ∷ xs) ys e = ground (arith, erase-append c xs ys)

module _ (trip : String) (c : Conn) (h : Hub) (sound : IsSound h) where
  -- The hub with the trip's slice cut at its head to these elements.
  abbrev pub cut : List Conn → Hub
  cut xs =
      put trip (snapshot trip h).ref (length xs)
        (xs ++ drop ((snapshot trip h).len - 1) (h.arrays (snapshot trip h).ref)) h.fresh h

  -- A removal either finds nothing, or writes the shorter list to the trip's own array.
  pub data IsCut (h' : Hub) : Type 0 where
    absent : erase c (subscribers trip h) ≡ subscribers trip h → h' ≡ h → IsCut h'
    found : 0 < (snapshot trip h).ref → h' ≡ cut (erase c (subscribers trip h)) → IsCut h'

  pub length-subscribers : length (subscribers trip h) ≡ (snapshot trip h).len
  unfolding subscribers
  length-subscribers =
      length-take (snapshot trip h).len (h.arrays (snapshot trip h).ref)
        (snapshot_fits trip h sound)

  pub remove_found-IsCut : IsCut (remove_found trip (index_of c (subscribers trip h)) h)
  remove_found-IsCut = elim (Option-cases (index_of c (subscribers trip h))) [
    | inl gone ↦ absent (erase_of_none c (subscribers trip h) gone) (unfold remove_found in rw gone)
    | inr (i, at) ↦
        let (lists, sizes) = erase_of_some c (subscribers trip h) i at in
        let shorter : length (erase c (subscribers trip h)) ≡ (snapshot trip h).len - 1 =
          omega (arith, length-subscribers) in
        found
          (snapshot_pos trip h sound
            (omega (arith, length-subscribers, snapshot_fits trip h sound)))
          (rw (at, shorter, ← lists) (unfold remove_found subscribers in refl))
  ]

  cut-IsSound : (xs : List Conn) → 0 < (snapshot trip h).ref → IsSound (cut xs)
  cut-IsSound xs pos =
      put-IsSound trip (snapshot trip h).ref (length xs)
        (xs ++ drop ((snapshot trip h).len - 1) (h.arrays (snapshot trip h).ref)) h.fresh h sound
        (snapshot-Owns trip h sound pos) pos (snapshot_old trip h sound) (omega arith)
        (omega (
          arith,
          length-append {0} xs (drop ((snapshot trip h).len - 1) (h.arrays (snapshot trip h).ref)),
        ))

  subscribers-cut :
      (xs : List Conn) (j : String)
      → 0 < (snapshot trip h).ref
      → subscribers j (cut xs) ≡ (if trip == j then xs else subscribers j h)
  subscribers-cut xs j pos = rw (
    subscribers-put trip (snapshot trip h).ref (length xs)
        (xs ++ drop ((snapshot trip h).len - 1) (h.arrays (snapshot trip h).ref)) h.fresh h sound
        (snapshot-Owns trip h sound pos) j,
    take-length xs _,
  )

delete-IsSound :
    (trip : String) (h : Hub) → IsSound h → IsSound (record h { conns = delete trip h.conns })
delete-IsSound trip h sound = record {
  nil_empty = sound.nil_empty;
  fresh_pos = sound.fresh_pos;
  fits = λ k s e. sound.fits k s (ground (arith, lookup-delete trip k h.conns));
  apart = λ i j s t e f.
      sound.apart i j s t (ground (arith, lookup-delete trip i h.conns))
        (ground (arith, lookup-delete trip j h.conns));
}

-- The deletion of an empty entry changes no trip's subscribers.
drop_empty-IsSound : (trip : String) (h : Hub) → IsSound h → IsSound (drop_empty trip h)
unfolding drop_empty
drop_empty-IsSound trip h sound = elim (Bool-cases (eqb (snapshot trip h).len 0)) [
  | inl empty ↦ rw (empty, drop_empty) (delete-IsSound trip h sound)
  | inr busy ↦ rw (busy, drop_empty) sound
]

subscribers-drop_empty :
    (trip : String) (h : Hub) (j : String) → subscribers j (drop_empty trip h) ≡ subscribers j h
unfolding drop_empty subscribers
subscribers-drop_empty trip h j = ground (arith, lookup-delete trip j h.conns, eq_iff trip j)

-- Only this trip may have an entry with no subscriber.
abbrev IsBusyBut : String → Hub → Type 0
IsBusyBut trip h =
    (k : String) (s : Slice) → lookup k h.conns ≡ some s → (trip == k) ≡ false → 0 < s.len

cut-IsBusyBut :
    (trip : String) (c : Conn) (h : Hub) (sound : IsSound h) (xs : List Conn)
    → HasNoEmpty h
    → IsBusyBut trip (cut trip c h sound xs)
cut-IsBusyBut trip c h sound xs busy k s at other = ground (
  arith,
  lookup-insert trip k (record { ref = (snapshot trip h).ref; len = length xs }) h.conns,
  busy k s,
)

drop_empty-HasNoEmpty :
    (trip : String) (h : Hub) → IsBusyBut trip h → HasNoEmpty (drop_empty trip h)
unfolding drop_empty
drop_empty-HasNoEmpty trip h busy k s at =
    ground (arith, lookup-delete trip k h.conns, busy k s, eq_iff trip k)

pub remove_conn_lem :
    (trip : String) (c : Conn) (h : Hub)
    → remove_conn trip c h ≡ drop_empty trip (remove_found trip (index_of c (subscribers trip h)) h)
unfolding remove_conn subscribers
remove_conn_lem trip c h = refl

module _ (trip : String) (c : Conn) (h : Hub) (sound : IsSound h) where
  -- The subscribers of the trip are those it had less the first occurrence of the connection; every
  -- other trip has the subscribers that it had.
  pub subscribers-remove_conn :
      (j : String)
      → subscribers j (remove_conn trip c h)
        ≡ (if trip == j then erase c (subscribers trip h) else subscribers j h)
  subscribers-remove_conn j = rw (remove_conn_lem, subscribers-drop_empty) go
    where
      go :
          subscribers j (remove_found trip (index_of c (subscribers trip h)) h)
          ≡ (if trip == j then erase c (subscribers trip h) else subscribers j h)
      go = elim (remove_found-IsCut trip c h sound) [
        | absent same e ↦ rw (e, same) (ground (arith, eq_iff trip j))
        | found pos e ↦ rw e (subscribers-cut trip c h sound (erase c (subscribers trip h)) j pos)
      ]

  pub remove_conn-IsSound : IsSound (remove_conn trip c h)
  remove_conn-IsSound = rw remove_conn_lem (drop_empty-IsSound trip _ go)
    where
      go : IsSound (remove_found trip (index_of c (subscribers trip h)) h)
      go = elim (remove_found-IsCut trip c h sound) [
        | absent same e ↦ rw e sound
        | found pos e ↦ rw e (cut-IsSound trip c h sound (erase c (subscribers trip h)) pos)
      ]

  -- After a removal no trip is kept without a subscriber, if none was before.
  pub remove_conn-HasNoEmpty : HasNoEmpty h → HasNoEmpty (remove_conn trip c h)
  remove_conn-HasNoEmpty busy = rw remove_conn_lem (drop_empty-HasNoEmpty trip _ go)
    where
      go : IsBusyBut trip (remove_found trip (index_of c (subscribers trip h)) h)
      go = elim (remove_found-IsCut trip c h sound) [
        | absent same e ↦ rw e (λ k s at _. busy k s at)
        | found pos e ↦ rw e (cut-IsBusyBut trip c h sound (erase c (subscribers trip h)) busy)
      ]
