-- ===== src/Accounts/Table.antt =====
-- A table of accounts (ride-service/migrations/V1_create_users.sql and V2_create_drivers.sql) with
-- the statements that a service sends to it, and bcrypt. Both are parameters; what the services
-- rely on is `IsAccountSql` and `IsBcrypt`.
use text.Mathlib.Text.{◌==◌}
use uber.Base.{
  ℕ, String, Time, Option, none, some, Bool, true, false, List, [], ◌∷◌, ◌++◌, ◌≡◌, ◌⊎◌, Result, ok,
  if◌then◌else◌,
}

-- The columns of a row that both tables have.
pub record Columns (Row : Type 0) : Type 0 where
  pub id : Row → String
  pub email : Row → String
  pub phone : Row → String
  pub password_hash : Row → String

-- The rows, NOW() of the server, and whatever else decides whether a statement fails.
pub record Table (Row : Type 0) : Type 0 where
  pub rows : List Row
  pub clock : Time
  pub hidden : ℕ

pub record AccountSql (Row New : Type 0) : Type 0 where
  pub exists_email : String → Table Row → Result Bool
  pub exists_phone : String → Table Row → Result Bool
  pub exec_insert : New → Table Row → Table Row × Option String
  pub query_email : String → Table Row → Result Row
  pub query_id : String → Table Row → Result Row

module _ {Row : Type 0} (col : Columns Row) where
  unfoldable pub find_email : String → List Row → Option Row
  find_email email [] = none
  find_email email (r ∷ rs) = if col.email r == email then some r else find_email email rs

  -- No row has this address or this phone.
  abbrev pub IsNewAccount : (email phone : String) → List Row → Type 0
  IsNewAccount email phone [] = Unit
  IsNewAccount email phone (r ∷ rs) =
      ((col.email r == email) ≡ false)
      × ((col.phone r == phone) ≡ false)
      × IsNewAccount email phone rs

  -- The two UNIQUE columns, read from the newest row on.
  pub data IsUnique : List Row → Type 0 where
    unique_nil : IsUnique []
    unique_add :
        {rs : List Row} (r : Row)
        → IsUnique rs
        → IsNewAccount (col.email r) (col.phone r) rs
        → IsUnique (rs ++ r ∷ [])

  -- An INSERT takes effect as a whole or not at all, and UNIQUE keeps a second row with an address
  -- or a phone out. `row_of` is the row of some values at a time.
  pub record IsAccountSql {New : Type 0} (row_of : New → Time → Row) (sql : AccountSql Row New)
      : Type 0 where
    pub insert_atomic :
        (n : New) (db : Table Row)
        → let r = row_of n db.clock in
          ((sql.exec_insert n db).0.rows ≡ db.rows)
          ⊎ (((sql.exec_insert n db).0.rows ≡ db.rows ++ r ∷ [])
              × IsNewAccount (col.email r) (col.phone r) db.rows)
    pub insert_ok :
        (n : New) (db : Table Row)
        → (sql.exec_insert n db).1 ≡ none
        → let r = row_of n db.clock in
          ((sql.exec_insert n db).0.rows ≡ db.rows ++ r ∷ [])
          × IsNewAccount (col.email r) (col.phone r) db.rows
    pub query_email_ok :
        (email : String) (db : Table Row) (r : Row)
        → sql.query_email email db ≡ ok r
        → find_email email db.rows ≡ some r

-- golang.org/x/crypto/bcrypt; the salt is an argument.
pub record Bcrypt : Type 0 where
  pub generate_from_password : (salt : ℕ) (password : String) → Result String
  pub compare_hash_and_password : (hash password : String) → Bool

pub record IsBcrypt (b : Bcrypt) : Type 0 where
  pub compare_generated :
      (salt : ℕ) (password hash : String)
      → b.generate_from_password salt password ≡ ok hash
      → b.compare_hash_and_password hash password ≡ true
