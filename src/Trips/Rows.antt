-- ===== src/Trips/Rows.antt =====
-- What the statements do to the rows: ids, lookups and counts.
use uber.Base.{
  String, none, some, true, false, List, [], ◌∷◌, ◌++◌, ◌≡◌, refl, inl, inr, arith, if◌then◌else◌,
  Bool-cases,
}
use uber.Trips.Model.{Trip}
use uber.Trips.Store.{
  Postgres, IsPostgres, Update, status_test, selects, update_row, update_rows, affected, find,
  IsNewId, IsKeyed,
}

module _ (pg : Postgres) where
  pub id-update_row : (u : Update) (t : Trip) → (update_row pg u t).id ≡ t.id
  unfolding update_row
  id-update_row u t = ground arith

  pub IsNewId-update_rows :
      (u : Update) (id : String) (ts : List Trip)
      → IsNewId pg id ts
      → IsNewId pg id (update_rows pg u ts)
  unfolding update_rows
  IsNewId-update_rows u id [] h = tt
  IsNewId-update_rows u id (t ∷ ts) h =
      (rw (id-update_row u t) h.0, IsNewId-update_rows u id ts h.1)

  pub IsKeyed-update_rows :
      (u : Update) (ts : List Trip) → IsKeyed pg ts → IsKeyed pg (update_rows pg u ts)
  unfolding update_rows
  IsKeyed-update_rows u [] h = tt
  IsKeyed-update_rows u (t ∷ ts) h =
      (rw (id-update_row u t) (IsNewId-update_rows u t.id ts h.0), IsKeyed-update_rows u ts h.1)

  -- A lookup after an update finds the updated row.
  pub find-update_rows :
      (u : Update) (id : String) (ts : List Trip)
      → find pg id (update_rows pg u ts)
        ≡ elim (find pg id ts) [ none ↦ none | some t ↦ some (update_row pg u t) ]
  unfolding update_rows find
  find-update_rows u id [] = refl
  find-update_rows u id (t ∷ ts) = ground (arith, id-update_row u t, find-update_rows u id ts)

  pub find-update_rows-some :
      (u : Update) (id : String) (ts : List Trip) (r t : Trip)
      → find pg id ts ≡ some r
      → find pg id (update_rows pg u ts) ≡ some t
      → t ≡ update_row pg u r
  find-update_rows-some u id ts r t e e' = ground (arith, find-update_rows u id ts)

  pub find_same :
      (id : String) (ts : List Trip) (t : Trip)
      → find pg id ts ≡ some t
      → pg.same_uuid id t.id ≡ true
  unfolding find
  find_same id [] t e = cc
  find_same id (x ∷ ts) t e = ground (arith, find_same id ts t)

  pub find-IsNewId : (id : String) (ts : List Trip) → IsNewId pg id ts → find pg id ts ≡ none
  unfolding find
  find-IsNewId id [] h = refl
  find-IsNewId id (t ∷ ts) h = ground (arith, find-IsNewId id ts)

  -- A row of a new id that was added at the end is found.
  pub find-append_new :
      (id : String) (ts : List Trip) (n : Trip)
      → IsNewId pg id ts
      → pg.same_uuid id n.id ≡ true
      → find pg id (ts ++ n ∷ []) ≡ some n
  unfolding find
  find-append_new id [] n new same = rw same
  find-append_new id (t ∷ ts) n new same = ground (arith, find-append_new id ts n new.1 same)

  pub IsNewId-append :
      (id : String) (ts : List Trip) (n : Trip)
      → IsNewId pg id ts
      → pg.same_uuid id n.id ≡ false
      → IsNewId pg id (ts ++ n ∷ [])
  IsNewId-append id [] n h new = (new, tt)
  IsNewId-append id (t ∷ ts) n h new = (h.0, IsNewId-append id ts n h.1 new)

  module _ (laws : IsPostgres pg) where
    pub IsKeyed-append :
        (ts : List Trip) (n : Trip) → IsKeyed pg ts → IsNewId pg n.id ts → IsKeyed pg (ts ++ n ∷ [])
    IsKeyed-append [] n k new = (tt, tt)
    IsKeyed-append (t ∷ ts) n k new = (
      IsNewId-append t.id ts n k.0 (ground (arith, laws.uuid_symmetric t.id n.id)),
      IsKeyed-append ts n k.1 new.1,
    )

    -- With one row of an id, the others have other ids.
    pub IsNewId-of_same :
        (id : String) (t : Trip) (ts : List Trip)
        → pg.same_uuid id t.id ≡ true
        → IsNewId pg t.id ts
        → IsNewId pg id ts
    IsNewId-of_same id t [] e h = tt
    IsNewId-of_same id t (x ∷ ts) e h =
        (ground (arith, laws.uuid_euclidean id t.id x.id), IsNewId-of_same id t ts e h.1)

    affected-IsNewId :
        (u : Update) (ts : List Trip) → IsNewId pg u.where_id ts → affected pg u ts ≡ 0
    unfolding affected selects
    affected-IsNewId u [] h = refl
    affected-IsNewId u (t ∷ ts) h = ground (arith, affected-IsNewId u ts)

    -- The command tag of an update counts the one row of its id, if its status passes the test.
    pub affected-find :
        (u : Update) (ts : List Trip)
        → IsKeyed pg ts
        → affected pg u ts ≡ elim (find pg u.where_id ts) [
          | none ↦ 0
          | some t ↦ if status_test u.where_status t.status then 1 else 0
        ]
    unfolding affected selects find
    affected-find u [] h = refl
    affected-find u (t ∷ ts) h = elim (Bool-cases (pg.same_uuid u.where_id t.id)) [
      | inl same ↦
          rw same
            (rw (affected-IsNewId u ts (IsNewId-of_same u.where_id t ts same h.0)) (ground arith))
      | inr other ↦ rw other (affected-find u ts h.1)
    ]

    -- An update leaves the rows as they are if no row has its id,
    pub update_rows-IsNewId :
        (u : Update) (ts : List Trip) → IsNewId pg u.where_id ts → update_rows pg u ts ≡ ts
    unfolding update_rows update_row
    update_rows-IsNewId u [] h = refl
    update_rows-IsNewId u (t ∷ ts) h = cc (update_rows-IsNewId u ts h.1, h.0)

    -- or if the status of the row that has it fails the test.
    pub update_rows_refused :
        (u : Update) (ts : List Trip) (t : Trip)
        → IsKeyed pg ts
        → find pg u.where_id ts ≡ some t
        → status_test u.where_status t.status ≡ false
        → update_rows pg u ts ≡ ts
    unfolding update_rows update_row selects find
    update_rows_refused u [] t k e f = refl
    update_rows_refused u (x ∷ ts) t k e f = elim (Bool-cases (pg.same_uuid u.where_id x.id)) [
      | inl same ↦
          ground (arith, update_rows-IsNewId u ts (IsNewId-of_same u.where_id x ts same k.0))
      | inr other ↦ ground (arith, update_rows_refused u ts t k.1)
    ]
