-- ===== src/Accounts/Steps.antt =====
-- The steps that `Register` and `Login` of both services end with. The times that `jwt.Generate`
-- reads are arguments.
use uber.Base.{String, Time, Go, none, some, Result, ok, err, if◌then◌else◌}
use uber.Auth.Tokens.{GoJwt, generate}
use uber.Accounts.Table.{Columns, Table, AccountSql, Bcrypt}

pub record AccountDeps (Row New : Type 0) : Type 0 where
  pub go : Go
  pub sql : AccountSql Row New
  pub bcrypt : Bcrypt
  pub jwt : GoJwt
  pub secret : String

module _ {Row New Resp : Type 0} (d : AccountDeps Row New) (role : String) where
  open d use {sql, bcrypt, jwt, secret}

  -- `Register` from the INSERT on: the row, the token, the answer to it.
  unfoldable pub create_account :
      New
      → (id email : String) → (String → Resp)
      → (now now' : Time) → Table Row
      → Table Row × Result Resp
  create_account n id email respond now now' db =
      let (db', failed) = sql.exec_insert n db in
      elim failed [
        | some e ↦ (db', err e)
        | none ↦ (
          db',
          elim (generate jwt secret id email role now now') [
            | err e ↦ err e
            | ok token ↦ ok (respond token)
          ],
        )
      ]

  unfoldable pub login_account :
      Columns Row
      → (Row → String → Resp)
      → (now now' : Time) (email password : String) → Table Row
      → Result Resp
  login_account col respond now now' email password db = elim (sql.query_email email db) [
    | err e ↦ err "invalid credentials"
    | ok r ↦
        if bcrypt.compare_hash_and_password (col.password_hash r) password
        then elim (generate jwt secret (col.id r) (col.email r) role now now') [
          | err e ↦ err e
          | ok token ↦ ok (respond r token)
        ]
        else err "invalid credentials"
  ]
