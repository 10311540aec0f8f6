-- ===== src/Accounts/Laws.antt =====
-- What creating an account and logging in guarantee.
use text.Mathlib.Text.{◌==◌}
use uber.Base.{
  String, Time, none, some, true, false, List, [], ◌∷◌, ◌++◌, ◌≡◌, inl, inr, arith, Result-cases,
  ok, err,
}
use uber.Auth.Tokens.{generate}
use uber.Accounts.Table.{
  Columns, Table, AccountSql, IsAccountSql, find_email, IsNewAccount, IsUnique, unique_add,
}
use uber.Accounts.Steps.{AccountDeps, create_account, login_account}

pub find_email-append_new :
    {Row : Type 0} (col : Columns Row) (email phone : String) (rs : List Row) (r : Row)
    → IsNewAccount col email phone rs
    → (col.email r == email) ≡ true
    → find_email col email (rs ++ r ∷ []) ≡ some r
unfolding find_email
find_email-append_new col email phone [] r new same = ground arith
find_email-append_new col email phone (x ∷ rs) r new same =
    ground (arith, find_email-append_new col email phone rs r)

-- An INSERT of any values leaves the addresses and phones unique.
pub exec_insert-IsUnique :
    {Row New : Type 0} (sql : AccountSql Row New) (col : Columns Row) {row_of : New → Time → Row}
    → IsAccountSql col row_of sql
    → (n : New) (db : Table Row) → IsUnique col db.rows
    → IsUnique col (sql.exec_insert n db).0.rows
exec_insert-IsUnique sql col {row_of} laws n db unique = elim (laws.insert_atomic n db) [
  | inl same ↦ rw same unique
  | inr (grown, new) ↦ rw grown (unique_add (row_of n db.clock) unique new)
]

module _ {Row New Resp : Type 0} (d : AccountDeps Row New) (role : String) where
  pub create_account_ok :
      (n : New) (id email : String) (respond : String → Resp) (now now' : Time) (db : Table Row)
      (resp : Resp)
      → (create_account d role n id email respond now now' db).1 ≡ ok resp
      → (token : String) × ((d.sql.exec_insert n db).1 ≡ none)
        × (generate d.jwt d.secret id email role now now' ≡ ok token)
        × (resp ≡ respond token)
  unfolding create_account
  create_account_ok n id email respond now now' db resp e = ground arith

  pub db-create_account :
      (n : New) (id email : String) (respond : String → Resp) (now now' : Time) (db : Table Row)
      → (create_account d role n id email respond now now' db).0 ≡ (d.sql.exec_insert n db).0
  unfolding create_account
  db-create_account n id email respond now now' db = ground arith

  pub login_account_found :
      (col : Columns Row) (respond : Row → String → Resp) (now now' : Time)
      (email password : String) (db : Table Row) (r : Row) (token : String)
      → d.sql.query_email email db ≡ ok r
      → d.bcrypt.compare_hash_and_password (col.password_hash r) password ≡ true
      → generate d.jwt d.secret (col.id r) (col.email r) role now now' ≡ ok token
      → login_account d role col respond now now' email password db ≡ ok (respond r token)
  unfolding login_account
  login_account_found col respond now now' email password db r token found right made =
      ground (arith, found, right, made)

  pub login_account_refused :
      (col : Columns Row) (respond : Row → String → Resp) (now now' : Time)
      (email password : String) (db : Table Row)
      → ((r : Row)
          → d.sql.query_email email db ≡ ok r
          → d.bcrypt.compare_hash_and_password (col.password_hash r) password ≡ false)
      → login_account d role col respond now now' email password db ≡ err "invalid credentials"
  unfolding login_account
  login_account_refused col respond now now' email password db wrong =
      elim (Result-cases (d.sql.query_email email db)) [
        | inr (e, missing) ↦ ground (arith, missing)
        | inl (r, found) ↦ ground (arith, found, wrong r found)
      ]

  module _ (col : Columns Row) {row_of : New → Time → Row}
      (laws : IsAccountSql col row_of d.sql) where
    pub create_account-IsUnique :
        (n : New) (id email : String) (respond : String → Resp) (now now' : Time) (db : Table Row)
        → IsUnique col db.rows
        → IsUnique col (create_account d role n id email respond now now' db).0.rows
    create_account-IsUnique n id email respond now now' db unique =
        rw (db-create_account n id email respond now now' db)
          (exec_insert-IsUnique d.sql col laws n db unique)

    pub login_account_ok :
        (respond : Row → String → Resp) (now now' : Time) (email password : String) (db : Table Row)
        (resp : Resp)
        → login_account d role col respond now now' email password db ≡ ok resp
        → (r : Row) × (token : String) × (find_email col email db.rows ≡ some r)
          × (d.bcrypt.compare_hash_and_password (col.password_hash r) password ≡ true)
          × (generate d.jwt d.secret (col.id r) (col.email r) role now now' ≡ ok token)
          × (resp ≡ respond r token)
    unfolding login_account
    login_account_ok respond now now' email password db resp e =
        elim (Result-cases (d.sql.query_email email db)) [
          | inr (x, failed) ↦ absurd (ground (arith, failed))
          | inl (r, found) ↦
              elim (Result-cases (generate d.jwt d.secret (col.id r) (col.email r) role now now')) [
                | inr (x, unsigned) ↦ absurd (ground (arith, found, unsigned))
                | inl (token, signed) ↦ (
                  r,
                  token,
                  laws.query_email_ok email db r found,
                  ground (arith, found, signed),
                  signed,
                  ground (arith, found, signed),
                )
              ]
        ]
