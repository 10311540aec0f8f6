-- ===== src/Users/Accounts.antt =====
-- What registration and login guarantee of the accounts.
use text.Mathlib.TextEquality.{eq_iff}
use uber.Base.{
  ℕ, ◌<◌, ◌+◌, String, Time, none, some, true, false, [], ◌∷◌, ◌++◌, ◌≡◌, refl, arith, Result-cases,
  Bool-cases, inl, inr, ok, err, sym, ap, ◌∙◌, ◌⊎◌,
}
use uber.Auth.Tokens.{IsGoJwt, day, new_claims, generate}
use uber.Auth.Middleware.{Next, bearer, require_auth, optional_auth}
use uber.Auth.Guard.{generated_admitted}
use uber.Users.Model.{RegisterRequest, LoginRequest, AuthResponse}
use uber.Accounts.Table.{IsAccountSql, IsBcrypt, find_email, IsNewAccount, IsUnique}
use uber.Accounts.Laws.{
  find_email-append_new, create_account_ok, db-create_account, create_account-IsUnique,
  login_account_ok, login_account_found,
}
use uber.Users.Store.{UserRow, user_row, user_columns}
use uber.Users.Service.{
  UserDb, UserDeps, scanned, user_of, logged_in, new_user, registered, add_account, register, login,
}

-- The account of a new rider: what the request says, the hash, and a rating of 5.
abbrev pub account : UserDeps → (id hash : String) → RegisterRequest → Time → UserRow
account d id hash req clock = record {
  id = id;
  name = req.name;
  email = req.email;
  phone = req.phone;
  password_hash = hash;
  rating = d.go.of_nat 5;
  created_at = clock;
}

module _ (d : UserDeps) where
  -- How a registration ends: before the INSERT, or with it.
  register_inv :
      (id : String) (salt : ℕ) (now now' : Time) (req : RegisterRequest) (db : UserDb)
      → ((e : String) × (register d id salt now now' req db ≡ (db, err e)))
        ⊎ ((hash : String) × (d.bcrypt.generate_from_password salt req.password ≡ ok hash)
            × (register d id salt now now' req db ≡ add_account d id hash now now' req db))
  unfolding register
  register_inv id salt now now' req db =
      let exists = scanned false (d.sql.exists_email req.email db) in
      let exists' = scanned exists (d.sql.exists_phone req.phone db) in
      elim (Bool-cases exists) [
        | inl taken ↦ inl ("email already exists", rw taken refl)
        | inr free ↦ elim (Bool-cases exists') [
          | inl taken ↦ inl ("phone already exists", ground (arith, free, taken))
          | inr free' ↦ elim (Result-cases (d.bcrypt.generate_from_password salt req.password)) [
            | inl (hash, made) ↦ inr (hash, made, ground (arith, free, free', made))
            | inr (e, failed) ↦ inl (e, ground (arith, free, free', failed))
          ]
        ]
      ]

  module _ (laws : IsAccountSql user_columns user_row d.sql) where
    -- On a PostgreSQL that keeps `IsAccountSql`, whatever `Register` answers, no two accounts have
    -- the same address or the same phone afterwards if none had before.
    pub register-IsUnique :
        (id : String) (salt : ℕ) (now now' : Time) (req : RegisterRequest) (db : UserDb)
        → IsUnique user_columns db.rows
        → IsUnique user_columns (register d id salt now now' req db).0.rows
    unfolding add_account
    register-IsUnique id salt now now' req db unique = elim (register_inv id salt now now' req db) [
      | inl (e, refused) ↦ rw refused unique
      | inr (hash, _, added) ↦ rw added (
          create_account-IsUnique d "rider" user_columns laws (new_user d id hash req) id req.email
            (λ token. registered d id token req) now now' db unique)
    ]

    -- `Register` that returns a token, on a PostgreSQL and a bcrypt as documented: one row was
    -- added, with the request's name, address and phone, which no row had, and with a hash that
    -- takes the password. The token is the one of a rider with the new id.
    pub register_ok :
        IsBcrypt d.bcrypt
        → (id : String) (salt : ℕ) (now now' : Time) (req : RegisterRequest) (db : UserDb)
          (resp : AuthResponse)
        → (register d id salt now now' req db).1 ≡ ok resp
        → (hash : String) × (d.bcrypt.compare_hash_and_password hash req.password ≡ true)
          × IsNewAccount user_columns req.email req.phone db.rows
          × ((register d id salt now now' req db).0.rows
              ≡ db.rows ++ account d id hash req db.clock ∷ [])
          × (generate d.jwt d.secret id req.email "rider" now now' ≡ ok resp.token)
          × (resp ≡ registered d id resp.token req)
    unfolding add_account new_user user_row registered
    register_ok crypt id salt now now' req db resp e = elim (register_inv id salt now now' req db) [
      | inl (x, refused) ↦ absurd (ground (arith, refused))
      | inr (hash, hashed, added) ↦
          let n = new_user d id hash req in
          let respond = λ (token : String). registered d id token req in
          let (token, stored, made, same) =
            create_account_ok d "rider" n id req.email respond now now' db resp (rw (← added) e) in
          let (grown, new) = laws.insert_ok n db stored in
          let is : resp.token ≡ token = ap AuthResponse.token same in
          (
            hash,
            crypt.compare_generated salt req.password hash hashed,
            new,
            rw (added, db-create_account d "rider" n id req.email respond now now' db) grown,
            rw is made,
            same ∙ ap (λ t. registered d id t req) (sym is),
          )
    ]

    -- `Login` that returns a token, on a PostgreSQL that keeps `IsAccountSql`: there is an account
    -- with the address whose hash takes the password. The token is the one of a rider with its id,
    -- and the answer does not hold the hash.
    pub login_ok :
        (now now' : Time) (req : LoginRequest) (db : UserDb) (resp : AuthResponse)
        → login d now now' req db ≡ ok resp
        → (u : UserRow) × (find_email user_columns req.email db.rows ≡ some u)
          × (d.bcrypt.compare_hash_and_password u.password_hash req.password ≡ true)
          × (generate d.jwt d.secret u.id u.email "rider" now now' ≡ ok resp.token)
          × (resp.user ≡ user_of u)
          × (resp.user.password_hash ≡ "")
    unfolding login user_of
    login_ok now now' req db resp e =
        let (u, token, found, right, made, same) =
          login_account_ok d "rider" user_columns laws logged_in now now' req.email req.password db
            resp e in
        (
          u,
          found,
          right,
          rw (ap AuthResponse.token same) made,
          ap AuthResponse.user same,
          ap (λ (r : AuthResponse). r.user.password_hash) same,
        )

    -- After a registration, on a PostgreSQL and a bcrypt as documented, a login with its address
    -- and its password succeeds where the query answers and a token can be made, and it is the
    -- token of the new id.
    pub login_registered :
        IsBcrypt d.bcrypt
        → (id : String) (salt : ℕ) (now now' at at' : Time) (req : RegisterRequest) (db : UserDb)
          (resp : AuthResponse) (u : UserRow) (token : String)
        → (register d id salt now now' req db).1 ≡ ok resp
        → d.sql.query_email req.email (register d id salt now now' req db).0 ≡ ok u
        → generate d.jwt d.secret id req.email "rider" at at' ≡ ok token
        → (again : AuthResponse) × (login d at at'
              (record { email = req.email; password = req.password })
              (register d id salt now now' req db).0
            ≡ ok again)
          × (again.token ≡ token)
          × (again.user.id ≡ resp.user.id)
    unfolding login new_user user_row registered user_of
    login_registered crypt id salt now now' at at' req db resp u token e read made =
        let db' = (register d id salt now now' req db).0 in
        let (hash, right, new, grown, _, same) = register_ok crypt id salt now now' req db resp e in
        let row = account d id hash req db.clock in
        let stored : find_email user_columns req.email db'.rows ≡ some row = rw grown (
          find_email-append_new user_columns req.email req.phone db.rows row new
            ((eq_iff req.email req.email).1 refl)) in
        let is : u ≡ row = ground (arith, laws.query_email_ok req.email db' u read, stored) in
        (
          record { token = token; user = user_of u },
          login_account_found d "rider" user_columns logged_in at at' req.email req.password db' u
              token read (rw is right) (rw is made),
          refl,
          ap UserRow.id is ∙ sym (ap (λ (r : AuthResponse). r.user.id) same),
        )

    -- The token of a registration, on a PostgreSQL, a bcrypt and a golang-jwt as documented, lets
    -- its rider in at every endpoint that needs one, until it expires, and the handler sees the new
    -- id.
    pub registered_admitted :
        {S B : Type 0}
        → IsBcrypt d.bcrypt
        → IsGoJwt d.jwt
        → (id : String) (salt : ℕ) (now now' at : Time) (req : RegisterRequest) (db : UserDb)
          (resp : AuthResponse) (header : String) (next : Next S B) (s : S)
        → (register d id salt now now' req db).1 ≡ ok resp
        → at < d.jwt.numeric_date (now' + day)
        → bearer header ≡ some resp.token
        → optional_auth d.jwt d.secret at header (require_auth next) none s
          ≡ next (some (new_claims d.jwt id req.email "rider" now now')) s
    registered_admitted crypt jwt id salt now now' at req db resp header next s e early held =
        let (_, _, _, _, made, _) = register_ok crypt id salt now now' req db resp e in
        generated_admitted d.jwt jwt d.secret id req.email "rider" resp.token header now now' at
          next s made early held
