-- ===== src/Tracking/Hub.antt =====
-- ride-service/internal/tracking/ws.go: the connections of each trip. A slice is a reference to
-- an array of the heap with a length, since `removeConn` writes to the array that a running
-- `BroadcastLocation` reads. A connection is known by its pointer.
use uber.Base.{
  ℕ, zero, suc, ◌+◌, ◌-◌, String, Option, none, some, List, [], ◌∷◌, ◌++◌, take, drop, length, ltb,
  eqb, if◌then◌else◌, lookup, insert, delete,
}

abbrev pub Conn : Type 0
Conn = ℕ

-- A slice that starts at the head of its array; the capacity is the array's length.
pub record Slice : Type 0 where
  pub ref : ℕ
  pub len : ℕ

pub record Hub : Type 0 where
  pub arrays : ℕ → List Conn
  pub fresh : ℕ
  pub conns : List (String × Slice)

abbrev pub nil_slice : Slice
nil_slice = record { ref = 0; len = 0 }

abbrev pub write : ℕ → List Conn → (ℕ → List Conn) → ℕ → List Conn
write r cells arrays k = if eqb k r then cells else arrays k

-- The elements of a slice, as they are in the heap now.
abbrev pub elements : (ℕ → List Conn) → Slice → List Conn
elements arrays s = take s.len (arrays s.ref)

abbrev pub or_nil : Option Slice → Slice
or_nil none = nil_slice
or_nil (some s) = s

unfoldable pub new_hub : Hub
new_hub = record { arrays = λ r. []; fresh = 1; conns = [] }

-- `conns := h.conns[tripID]`
unfoldable pub snapshot : String → Hub → Slice
snapshot trip h = or_nil (lookup trip h.conns)

-- The cells that a grown array has beyond its elements; how many is the runtime's choice.
abbrev pub padding : ℕ → List Conn
padding zero = []
padding (suc n) = 0 ∷ padding n

-- `append(s, c)`: in place if there is room, else in a new array with `spare` free cells.
unfoldable pub append_conn : (spare : ℕ) → Slice → Conn → Hub → Hub × Slice
append_conn spare s c h =
    let cells = h.arrays s.ref in
    if ltb s.len (length cells)
    then (
      record h { arrays = write s.ref (take s.len cells ++ (c ∷ drop (s.len + 1) cells)) h.arrays },
      record s { len = s.len + 1 },
    )
    else (
      record h {
        arrays = write h.fresh (take s.len cells ++ (c ∷ padding spare)) h.arrays;
        fresh = h.fresh + 1;
      },
      record { ref = h.fresh; len = s.len + 1 },
    )

-- `HandleWS` up to its read loop: `h.conns[tripID] = append(h.conns[tripID], conn)`.
unfoldable pub connect : (spare : ℕ) → String → Conn → Hub → Hub
unfolding snapshot append_conn
connect spare trip c h =
    let (h', s) = append_conn spare (snapshot trip h) c h in
    record h' { conns = insert trip s h'.conns }

-- The loop of `removeConn`: the first index at which the connection stands.
unfoldable pub index_of : Conn → List Conn → Option ℕ
index_of c [] = none
index_of c (x ∷ xs) =
    let rest = index_of c xs in
    if eqb x c then some 0 else elim rest [ none ↦ none | some i ↦ some (suc i) ]

-- `append(conns[:i], conns[i+1:]...)`: the elements behind `i` move down by one in the same array,
-- and the cell of the last one keeps its value.
unfoldable pub remove_at : ℕ → Slice → Hub → Hub × Slice
remove_at i s h =
    let cells = h.arrays s.ref in
    let xs = take s.len cells in
    (
      record h {
        arrays = write s.ref ((take i xs ++ drop (suc i) xs) ++ drop (s.len - 1) cells) h.arrays;
      },
      record s { len = s.len - 1 },
    )

-- The two statements of `removeConn`, given the index found.
unfoldable pub remove_found : String → Option ℕ → Hub → Hub
unfolding remove_at snapshot
remove_found trip none h = h
remove_found trip (some i) h =
    let (h', s) = remove_at i (snapshot trip h) h in record h' { conns = insert trip s h'.conns }

-- `if len(h.conns[tripID]) == 0 { delete(h.conns, tripID) }`
unfoldable pub drop_empty : String → Hub → Hub
unfolding snapshot
drop_empty trip h =
    if eqb (snapshot trip h).len 0 then record h { conns = delete trip h.conns } else h

unfoldable pub remove_conn : String → Conn → Hub → Hub
unfolding snapshot index_of remove_found drop_empty
remove_conn trip c h =
    drop_empty trip (remove_found trip (index_of c (elements h.arrays (snapshot trip h))) h)

-- The connections that a `BroadcastLocation` writes to: it takes the slice once and reads each
-- element when its turn comes. The hub that it finds then is given for each turn.
unfoldable pub broadcast_from : Slice → ℕ → List Hub → List Conn
broadcast_from s i [] = []
broadcast_from s i (h ∷ hs) = take 1 (drop i (elements h.arrays s)) ++ broadcast_from s (suc i) hs

-- The abstract hub: the subscribers of a trip, in the order in which they came.
unfoldable pub subscribers : String → Hub → List Conn
unfolding snapshot
subscribers trip h = elements h.arrays (snapshot trip h)
