-- ===== src/Tracking/Broadcast.antt =====
-- `BroadcastLocation` beside `HandleWS` and `removeConn`: it holds a slice without the lock.
use uber.Base.{
  ℕ, zero, suc, ◌+◌, ◌-◌, ◌≤◌, String, none, some, List, [], ◌∷◌, ◌++◌, take, drop, length,
  eqb_refl, ◌≡◌, refl, arith, append_assoc, length-append, take-length, take_one_more, take_all,
  length-drop, take-append_add, drop-take, drop-append_add, ap,
}
use native.Mathlib.Nat.{zero-add, add-suc, suc-add, add-zero}
use uber.Tracking.Hub.{
  Hub, Slice, Conn, elements, snapshot, subscribers, index_of, drop_empty, remove_conn,
  broadcast_from,
}
use uber.Tracking.Sound.{IsSound}
use uber.Tracking.Remove.{
  erase, cut, absent, found, remove_found-IsCut, erase_of_some, erase-append, index_of-append,
  remove_conn_lem, length-subscribers,
}

abbrev pub replicate : ℕ → Hub → List Hub
replicate zero h = []
replicate (suc n) h = h ∷ replicate n h

broadcast_from-append :
    (s : Slice) (i : ℕ) (hs gs : List Hub)
    → broadcast_from s i (hs ++ gs) ≡ broadcast_from s i hs ++ broadcast_from s (length hs + i) gs
unfolding broadcast_from
broadcast_from-append s i [] gs = rw zero-add
broadcast_from-append s i (h ∷ hs) gs =
    rw (broadcast_from-append s (suc i) hs gs, append_assoc, add-suc, suc-add)

-- A list in place of the head of an array, with the array's last cell of the length kept.
shifted :
    (xs : List Conn) (n : ℕ) (cells : List Conn)
    → suc (length xs) ≡ n
    → take n (xs ++ drop (n - 1) cells) ≡ xs ++ drop (n - 1) (take n cells)
shifted xs n cells e =
    let one_less : n - 1 ≡ length xs = omega arith in
    let one_more : n ≡ length xs + 1 = omega arith in
    rw (
      one_less,
      one_more,
      take-append_add xs (drop (length xs) cells) 1,
      drop-take (length xs) 1 cells,
    )

drop_behind :
    (xs : List Conn) (n : ℕ) (d : Conn) (zs more : List Conn)
    → n ≡ length xs + 1
    → drop n ((xs ++ (d ∷ zs)) ++ more) ≡ zs ++ more
drop_behind xs n d zs more e = rw (e, append_assoc, drop-append_add)

drop_last :
    (xs : List Conn) (d : Conn) (zs : List Conn)
    → drop (length (xs ++ (d ∷ zs)) - 1) (xs ++ (d ∷ zs)) ≡ drop (length zs) (d ∷ zs)
drop_last xs d zs =
    let size : length (xs ++ (d ∷ zs)) - 1 ≡ length xs + length zs =
      omega (arith, length-append {0} xs (d ∷ zs)) in
    rw (size, drop-append_add)

length-replicate : (n : ℕ) (h : Hub) → length (replicate n h) ≡ n
length-replicate zero h = refl
length-replicate (suc n) h = omega (arith, length-replicate n h)

arrays-drop_empty : (trip : String) (h : Hub) → (drop_empty trip h).arrays ≡ h.arrays
unfolding drop_empty
arrays-drop_empty trip h = ground arith

-- While the hub stays as it is, the turns read the slice's elements in order.
broadcast_from-replicate :
    (s : Slice) (i n : ℕ) (h : Hub)
    → broadcast_from s i (replicate n h) ≡ take n (drop i (elements h.arrays s))
unfolding broadcast_from
broadcast_from-replicate s i zero h = refl
broadcast_from-replicate s i (suc n) h =
    rw (broadcast_from-replicate s (suc i) n h) (take_one_more i n _)

module _ (trip : String) (h : Hub) (sound : IsSound h) where
  -- In a sound hub, a broadcast with no removal in between writes once to each subscriber, in their
  -- order.
  pub broadcast_all :
      broadcast_from (snapshot trip h) 0 (replicate (length (subscribers trip h)) h)
      ≡ subscribers trip h
  broadcast_all = rw broadcast_from-replicate (
      unfold subscribers in
      take_all (length (subscribers trip h)) (subscribers trip h) (omega arith))

  module _ (c : Conn) (i : ℕ) (at : index_of c (subscribers trip h) ≡ some i) where
    erased :
        (take i (subscribers trip h) ++ drop (suc i) (subscribers trip h)
          ≡ erase c (subscribers trip h))
        × (length (erase c (subscribers trip h)) + 1 ≡ length (subscribers trip h))
    erased = erase_of_some c (subscribers trip h) i at

    -- The elements of the slice in the hub that the removal wrote.
    written :
        (xs : List Conn)
        → suc (length xs) ≡ (snapshot trip h).len
        → elements (cut trip c h sound xs).arrays (snapshot trip h)
          ≡ xs ++ drop (length (subscribers trip h) - 1) (subscribers trip h)
    written xs e =
        rw (eqb_refl (snapshot trip h).ref, length-subscribers trip c h sound)
          (unfold subscribers in
            shifted xs (snapshot trip h).len (h.arrays (snapshot trip h).ref) e)

    -- What the slice reads once the connection is removed.
    elements_stale :
        elements (remove_conn trip c h).arrays (snapshot trip h)
        ≡ erase c (subscribers trip h)
          ++ drop (length (subscribers trip h) - 1) (subscribers trip h)
    elements_stale =
        rw (remove_conn_lem, arrays-drop_empty)
          (elim (remove_found-IsCut trip c h sound) [
            | absent same e ↦ absurd (omega (arith, erased.1, ap length same))
            | found pos e ↦ rw e (
                written (erase c (subscribers trip h))
                  (omega (arith, erased.1, length-subscribers trip c h sound)))
          ])

    -- A broadcast that has had its turn at the first `n` subscribers, the removed one among them or
    -- not, when the connection is removed: it goes on in the shorter list, at the place it had in
    -- the longer one, and then writes to the last subscriber once more.
    pub broadcast_stale :
        (n m : ℕ)
        → n + m ≡ length (subscribers trip h)
        → broadcast_from (snapshot trip h) 0 (replicate n h ++ replicate m (remove_conn trip c h))
          ≡ take n (subscribers trip h)
            ++ drop n (
                erase c (subscribers trip h)
                ++ drop (length (subscribers trip h) - 1) (subscribers trip h))
    broadcast_stale n m e =
        rw
          (
            broadcast_from-append,
            broadcast_from-replicate,
            broadcast_from-replicate,
            length-replicate,
            add-zero,
            elements_stale,
            take_all m (drop n stale) short,
          )
          (unfold subscribers in refl)
      where
        last : List Conn
        last = drop (length (subscribers trip h) - 1) (subscribers trip h)

        stale : List Conn
        stale = erase c (subscribers trip h) ++ last

        short : length (drop n stale) ≤ m
        short = omega (
          arith,
          e,
          erased.1,
          length-drop {0} n stale,
          length-append {0} (erase c (subscribers trip h)) last,
          length-drop {0} (length (subscribers trip h) - 1) (subscribers trip h),
        )

  -- In a sound hub, a broadcast that is behind the removed connection `c`, about to write to `d`,
  -- when `c` is removed: `d` gets nothing in this round, unless it is the last subscriber, and the
  -- last subscriber is written to once more.
  pub broadcast_skips :
      (c d : Conn) (xs ys zs : List Conn)
      → index_of c xs ≡ none
      → subscribers trip h ≡ (xs ++ (c ∷ ys)) ++ (d ∷ zs)
      → broadcast_from (snapshot trip h) 0 (
          replicate (length (xs ++ (c ∷ ys))) h
          ++ replicate (suc (length zs)) (remove_conn trip c h))
        ≡ (xs ++ (c ∷ ys)) ++ (zs ++ drop (length zs) (d ∷ zs))
  broadcast_skips c d xs ys zs first e = rw (
    broadcast_stale c (length xs) at (length (xs ++ (c ∷ ys))) (suc (length zs)) sizes,
    e,
    take-length,
    erased_list,
    behind,
    last,
  )
    where
      at : index_of c (subscribers trip h) ≡ some (length xs)
      at = rw (e, append_assoc) (index_of-append c xs (ys ++ (d ∷ zs)) first)

      sizes : length (xs ++ (c ∷ ys)) + suc (length zs) ≡ length (subscribers trip h)
      sizes = rw (e, length-append (xs ++ (c ∷ ys)) (d ∷ zs))

      erased_list : erase c ((xs ++ (c ∷ ys)) ++ (d ∷ zs)) ≡ (xs ++ ys) ++ (d ∷ zs)
      erased_list = rw (append_assoc, append_assoc) (erase-append c xs (ys ++ (d ∷ zs)) first)

      behind :
          drop (length (xs ++ (c ∷ ys))) (
            ((xs ++ ys) ++ (d ∷ zs))
            ++ drop (length ((xs ++ (c ∷ ys)) ++ (d ∷ zs)) - 1) ((xs ++ (c ∷ ys)) ++ (d ∷ zs)))
          ≡ zs ++ drop (length ((xs ++ (c ∷ ys)) ++ (d ∷ zs)) - 1) ((xs ++ (c ∷ ys)) ++ (d ∷ zs))
      behind =
          drop_behind (xs ++ ys) (length (xs ++ (c ∷ ys))) d zs _
            (omega (arith, length-append {0} xs (c ∷ ys), length-append {0} xs ys))

      last :
          drop (length ((xs ++ (c ∷ ys)) ++ (d ∷ zs)) - 1) ((xs ++ (c ∷ ys)) ++ (d ∷ zs))
          ≡ drop (length zs) (d ∷ zs)
      last = drop_last (xs ++ (c ∷ ys)) d zs
