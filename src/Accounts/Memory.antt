-- ===== src/Accounts/Memory.antt =====
-- A table of accounts in memory, which meets `IsAccountSql`, and passwords that are not hashed.
use text.Mathlib.Text.{◌==◌}
use text.Mathlib.TextEquality.{eq_iff}
use uber.Base.{
  String, Time, Option, none, some, Bool, true, false, List, [], ◌∷◌, ◌++◌, ◌≡◌, refl, inl, inr,
  arith, Bool-cases, Result, ok, err, if◌then◌else◌,
}
use uber.Accounts.Table.{
  Columns, Table, AccountSql, find_email, IsNewAccount, IsAccountSql, Bcrypt, IsBcrypt,
}

module _ {Row New : Type 0} (col : Columns Row) (row_of : New → Time → Row) where
  is_new : (email phone : String) → List Row → Bool
  is_new email phone [] = true
  is_new email phone (r ∷ rs) =
      let rest = is_new email phone rs in
      if col.email r == email then false else if col.phone r == phone then false else rest

  unfoldable pub insert_row : New → Table Row → Table Row × Option String
  unfolding is_new
  insert_row n db =
      let r = row_of n db.clock in
      if is_new (col.email r) (col.phone r) db.rows
      then (record db { rows = db.rows ++ r ∷ [] }, none)
      else (db, some "duplicate key")

  unfoldable pub query_row : String → Table Row → Result Row
  unfolding find_email
  query_row email db = elim (find_email col email db.rows) [ none ↦ err "no rows" | some r ↦ ok r ]

  -- The search for a phone is out of order.
  abbrev pub accounts_memory : AccountSql Row New
  accounts_memory = record {
    exists_email =
        λ email db. elim (find_email col email db.rows) [ none ↦ ok false | some r ↦ ok true ];
    exists_phone = λ phone db. err "connection reset";
    exec_insert = insert_row;
    query_email = query_row;
    query_id = λ id db. err "no rows";
  }

  is_new-IsNewAccount :
      (email phone : String) (rs : List Row)
      → is_new email phone rs ≡ true
      → IsNewAccount col email phone rs
  unfolding is_new
  is_new-IsNewAccount email phone [] h = tt
  is_new-IsNewAccount email phone (r ∷ rs) h = ground (arith, is_new-IsNewAccount email phone rs)

  pub accounts_memory-IsAccountSql : IsAccountSql col row_of accounts_memory
  unfolding insert_row query_row
  accounts_memory-IsAccountSql = record {
    insert_atomic = λ n db.
        let r = row_of n db.clock in
        elim (Bool-cases (is_new (col.email r) (col.phone r) db.rows)) [
          | inl new ↦ inr (rw new refl, is_new-IsNewAccount (col.email r) (col.phone r) db.rows new)
          | inr old ↦ inl (rw old refl)
        ];
    insert_ok = λ n db e.
        let r = row_of n db.clock in
        elim (Bool-cases (is_new (col.email r) (col.phone r) db.rows)) [
          | inl new ↦ (rw new refl, is_new-IsNewAccount (col.email r) (col.phone r) db.rows new)
          | inr old ↦ absurd (ground (arith, old))
        ];
    query_email_ok = λ email db r e. ground arith;
  }

-- No hash at all: enough for the theorems on accounts.
abbrev pub plain : Bcrypt
plain = record {
  generate_from_password = λ salt password. ok password;
  compare_hash_and_password = ◌==◌;
}

pub plain-IsBcrypt : IsBcrypt plain
plain-IsBcrypt = record {
  compare_generated = λ salt password hash e. (eq_iff hash password).1 (ground arith);
}
