-- ===== src/Users/Replies.antt =====
-- What the endpoints of users tell.
use uber.Base.{
  ℕ, String, Time, Option, none, false, ◌≡◌, refl, arith, inl, inr, Option-cases, Result-cases, ok,
}
use uber.Events.{Bytes}
use uber.Http.{json}
use uber.Auth.Tokens.{Claims}
use uber.Accounts.Laws.{login_account_refused}
use uber.Users.Model.{AuthResponse}
use uber.Users.Store.{UserRow, user_columns}
use uber.Users.Service.{UserDb, UserDeps, logged_in, login, register}
use uber.Users.Handler.{UserDecoders, error, welcome, handle_login, handle_register}

module _ (d : UserDeps) (dec : UserDecoders) where
  -- An answer 201 is that of `Register`.
  pub handle_register_made :
      (id : String) (salt : ℕ) (now now' : Time) (body : Bytes) (context : Option Claims)
      (db : UserDb) (resp : AuthResponse)
      → (handle_register d dec id salt now now' body context db).1 ≡ json 201 (welcome resp)
      → (register d id salt now now' (dec.decode_register body).0 db).1 ≡ ok resp
  unfolding handle_register
  handle_register_made id salt now now' body context db resp e =
      let made = (register d id salt now now' (dec.decode_register body).0 db).1 in
      elim (Option-cases (dec.decode_register body).1) [
        | inr (x, failed) ↦ absurd (ground (arith, failed))
        | inl decoded ↦ elim (Result-cases made) [
          | inl (r, same) ↦ ground (arith, decoded, same)
          | inr (x, refused) ↦ absurd (ground (arith, decoded, refused))
        ]
      ]

  -- A login whose body is decoded, with a wrong password, gets the answer that one with an unknown
  -- address gets: 401 with one text, and nothing has changed.
  pub handle_login_hides :
      (now now' : Time) (body : Bytes) (context : Option Claims) (db : UserDb)
      → (dec.decode_login body).1 ≡ none
      → ((u : UserRow)
          → d.sql.query_email (dec.decode_login body).0.email db ≡ ok u
          → d.bcrypt.compare_hash_and_password u.password_hash (dec.decode_login body).0.password
            ≡ false)
      → handle_login d dec now now' body context db ≡ (db, json 401 (error "invalid credentials"))
  unfolding handle_login login
  handle_login_hides now now' body context db decoded wrong =
      let req = (dec.decode_login body).0 in
      let refused =
        login_account_refused d "rider" user_columns logged_in now now' req.email req.password db
          wrong in
      rw (decoded, refused, handle_login) refl
