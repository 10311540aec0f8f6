-- ===== src/Trips/Written.antt =====
-- One row of the table is set and the others stay: what an UPDATE of ride-service/internal/trips/
-- service.go by id does to the lookups.
use uber.Base.{String, some, false, List, ◌≡◌, refl, inl, inr, arith, Option-cases, Bool-cases}
use uber.Trips.Model.{Trip}
use uber.Trips.Store.{Postgres, IsPostgres, Update, selects, update_row, update_rows, find}
use uber.Trips.Rows.{find_same, find-update_rows}

-- The rows before and after, where the trip of `id` is `t` afterwards and the trip of no other id
-- has changed, been added or gone.
pub record IsWritten (pg : Postgres) (id : String) (ts : List Trip) (t : Trip) (ts' : List Trip)
    : Type 0 where
  pub row : find pg id ts' ≡ some t
  pub others :
      (other : String) → pg.same_uuid id other ≡ false → find pg other ts' ≡ find pg other ts

module _ (pg : Postgres) (laws : IsPostgres pg) where
  -- A row that is found under another id has another id.
  other_row :
      (id other : String) (ts : List Trip) (r : Trip)
      → pg.same_uuid id other ≡ false
      → find pg other ts ≡ some r
      → pg.same_uuid id r.id ≡ false
  other_row id other ts r differ found = elim (Bool-cases (pg.same_uuid id r.id)) [
    | inr apart ↦ apart
    | inl same ↦ absurd (
        ground (
          arith,
          laws.uuid_euclidean r.id id other (laws.uuid_symmetric id r.id same)
              (laws.uuid_symmetric other r.id (find_same pg other ts r found)),
        ))
  ]

  find-update_rows-other :
      (u : Update) (other : String) (ts : List Trip)
      → pg.same_uuid u.where_id other ≡ false
      → find pg other (update_rows pg u ts) ≡ find pg other ts
  unfolding update_row selects
  find-update_rows-other u other ts differ = elim (Option-cases (find pg other ts)) [
    | inl gone ↦ ground (arith, gone, find-update_rows pg u other ts)
    | inr (r, found) ↦
        ground (
          arith,
          found,
          find-update_rows pg u other ts,
          other_row u.where_id other ts r differ found,
        )
  ]

  pub update_rows-IsWritten :
      (u : Update) (ts : List Trip) (t : Trip)
      → find pg u.where_id (update_rows pg u ts) ≡ some t
      → IsWritten pg u.where_id ts t (update_rows pg u ts)
  update_rows-IsWritten u ts t found = record {
    row = found;
    others = λ other differ. find-update_rows-other u other ts differ;
  }

  -- Rows that stay as they are.
  pub kept-IsWritten :
      (id : String) (ts : List Trip) (t : Trip) → find pg id ts ≡ some t → IsWritten pg id ts t ts
  kept-IsWritten id ts t found = record { row = found; others = λ other differ. refl }
