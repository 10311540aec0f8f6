-- ===== src/Trips/Memory.antt =====
-- A database in memory that meets `IsPostgres`, and a world to run the operations in.
use text.Mathlib.Text.{◌==◌}
use text.Mathlib.TextEquality.{eq_iff}
use uber.Base.{
  ℕ, ◌+◌, ◌-◌, ◌*◌, String, pos, Go, none, some, Bool, true, false, List, [], ◌∷◌, ◌++◌, ◌≡◌, refl,
  sym, ◌∙◌, ◌⊎◌, inl, inr, arith, Result, ok, err, if◌then◌else◌, ltb, leb, Bool-cases,
}
use uber.Events.{Json}
use uber.Kafka.{Broker}
use uber.Trips.Model.{Trip, TripRequest}
use uber.Trips.Store.{
  Postgres, IsPostgres, Db, NewTrip, Update, inserted, selects, assign_columns, update_row,
  update_rows, affected, find, IsNewId,
}
use uber.Trips.Service.{World, Deps}

-- Whole numbers for floats: enough for distances and fares.
abbrev pub whole : Go
whole = record {
  lt = ltb;
  le = leb;
  add = λ a b. a + b;
  sub = λ a b. a - b;
  mul = λ a b. a * b;
  div = λ a b. a;
  neg = λ a. a;
  of_nat = λ n. n;
  pi = 3;
  sin = λ a. a;
  cos = λ a. a;
  sqrt = λ a. a;
  atan2 = λ a b. a;
  rfc3339 = λ t. "2026-01-01T00:00:00Z";
  whole_seconds = λ a b. pos (a - b);
}

-- The columns' conversions, and no statement yet.
abbrev columns : Postgres
columns = record {
  same_uuid = ◌==◌;
  uuid = λ a. a;
  decimal = λ f. f;
  timestamp = λ t. t;
  exec_insert = λ n db. (db, err "");
  exec_update = λ u db. (db, err "");
  query_row = λ id db. err "";
}

is_new_id : String → List Trip → Bool
is_new_id id [] = true
is_new_id id (t ∷ ts) = if id == t.id then false else is_new_id id ts

unfoldable pub insert_memory : NewTrip → Db → Db × Result ℕ
unfolding is_new_id inserted
insert_memory n db =
    if is_new_id n.id db.trips
    then (record db { trips = db.trips ++ inserted columns n db.clock ∷ [] }, ok 1)
    else (db, err "duplicate key")

unfoldable pub query_memory : String → Db → Result Trip
unfolding find
query_memory id db = elim (find columns id db.trips) [ none ↦ err "no rows" | some t ↦ ok t ]

unfoldable pub update_memory : Update → Db → Db × Result ℕ
unfolding update_rows update_row affected selects assign_columns
update_memory u db =
    (record db { trips = update_rows columns u db.trips }, ok (affected columns u db.trips))

abbrev pub memory : Postgres
memory = record {
  same_uuid = ◌==◌;
  uuid = λ a. a;
  decimal = λ f. f;
  timestamp = λ t. t;
  exec_insert = insert_memory;
  exec_update = update_memory;
  query_row = query_memory;
}

is_new_id-IsNewId : (id : String) (ts : List Trip) → is_new_id id ts ≡ true → IsNewId memory id ts
unfolding is_new_id
is_new_id-IsNewId id [] h = tt
is_new_id-IsNewId id (t ∷ ts) h = ground (arith, is_new_id-IsNewId id ts)

eq_symmetric : (a b : String) → (a == b) ≡ true → (b == a) ≡ true
eq_symmetric a b h = (eq_iff b a).1 (sym ((eq_iff a b).0 h))

eq_euclidean : (a b c : String) → (a == b) ≡ true → (a == c) ≡ true → (b == c) ≡ true
eq_euclidean a b c h k = (eq_iff b c).1 (sym ((eq_iff a b).0 h) ∙ (eq_iff a c).0 k)

update_rows-columns :
    (u : Update) (ts : List Trip) → update_rows columns u ts ≡ update_rows memory u ts
unfolding update_rows update_row selects assign_columns
update_rows-columns u [] = refl
update_rows-columns u (t ∷ ts) = cc (update_rows-columns u ts)

affected-columns : (u : Update) (ts : List Trip) → affected columns u ts ≡ affected memory u ts
unfolding affected selects
affected-columns u [] = refl
affected-columns u (t ∷ ts) = ground (arith, affected-columns u ts)

find-columns : (id : String) (ts : List Trip) → find columns id ts ≡ find memory id ts
unfolding find
find-columns id [] = refl
find-columns id (t ∷ ts) = ground (arith, find-columns id ts)

insert_memory_atomic :
    (n : NewTrip) (db : Db)
    → ((insert_memory n db).0.trips ≡ db.trips)
      ⊎ (((insert_memory n db).0.trips ≡ db.trips ++ inserted memory n db.clock ∷ [])
          × IsNewId memory n.id db.trips)
unfolding insert_memory
insert_memory_atomic n db = elim (Bool-cases (is_new_id n.id db.trips)) [
  | inl new ↦ inr (rw new, is_new_id-IsNewId n.id db.trips new)
  | inr old ↦ inl (rw old)
]

insert_memory_ok :
    (n : NewTrip) (db : Db) (k : ℕ)
    → (insert_memory n db).1 ≡ ok k
    → ((insert_memory n db).0.trips ≡ db.trips ++ inserted memory n db.clock ∷ [])
      × IsNewId memory n.id db.trips
unfolding insert_memory
insert_memory_ok n db k e = elim (Bool-cases (is_new_id n.id db.trips)) [
  | inl new ↦ (rw new, is_new_id-IsNewId n.id db.trips new)
  | inr old ↦ ground arith
]

update_memory_ok :
    (u : Update) (db : Db) (k : ℕ)
    → (update_memory u db).1 ≡ ok k
    → ((update_memory u db).0.trips ≡ update_rows memory u db.trips)
      × (k ≡ affected memory u db.trips)
unfolding update_memory
update_memory_ok u db k e =
    (update_rows-columns u db.trips, ground (arith, affected-columns u db.trips))

query_memory_ok :
    (id : String) (db : Db) (t : Trip)
    → query_memory id db ≡ ok t
    → find memory id db.trips ≡ some t
unfolding query_memory
query_memory_ok id db t e = ground (arith, find-columns id db.trips)

pub memory-IsPostgres : IsPostgres memory
unfolding update_memory
memory-IsPostgres = record {
  uuid_symmetric = eq_symmetric;
  uuid_euclidean = eq_euclidean;
  insert_atomic = insert_memory_atomic;
  insert_ok = insert_memory_ok;
  update_atomic = λ u db. inr (update_rows-columns u db.trips);
  update_ok = update_memory_ok;
  query_ok = query_memory_ok;
}

-- A broker that stores each message once.
abbrev pub one_broker : Broker
one_broker = record { write_messages = λ m log. (log ++ m ∷ [], none) }

-- Bytes that hold nothing; enough where no event is read back.
abbrev pub silent : Json
silent = record {
  marshal_requested = λ e. ok [];
  unmarshal_requested = λ b. err "unexpected end of JSON input";
  marshal_assigned = λ e. ok [];
  unmarshal_assigned = λ b. ok (record { trip_id = "t1"; driver_id = "d1" });
  marshal_completed = λ e. ok [];
}

abbrev pub deps : Deps
deps = record { go = whole; pg = memory; broker = one_broker; json = silent }

abbrev pub empty : World
empty = record { db = record { trips = []; clock = 7; hidden = 0 }; log = []; jobs = [] }

abbrev pub ride : TripRequest
ride = record { pickup_lat = 12; pickup_lng = 77; drop_lat = 13; drop_lng = 78 }
