-- ===== src/Drivers/Accounts.antt =====
-- What the endpoints for the accounts of drivers guarantee.
use uber.Base.{
  ℕ, String, Time, Option, none, true, [], ◌∷◌, ◌++◌, ◌≡◌, refl, arith, Result-cases, Option-cases,
  inl, inr, ok, err, sym, ap, ◌∙◌, ◌⊎◌,
}
use uber.Events.{Bytes}
use uber.Http.{json}
use uber.Auth.Tokens.{Claims, generate}
use uber.Validation.{validate_name, validate_email, validate_phone, validate_password}
use uber.Accounts.Table.{IsAccountSql, IsBcrypt, IsNewAccount, IsUnique}
use uber.Accounts.Steps.{create_account}
use uber.Accounts.Laws.{create_account_ok, db-create_account, create_account-IsUnique}
use uber.Drivers.Model.{RegisterRequest, AuthResponse}
use uber.Drivers.Store.{DriverRow, driver_row, driver_columns}
use uber.Drivers.Service.{
  DriverDb, DriverDeps, vehicle_of, new_driver, registered, check_new, register,
}
use uber.Drivers.Handler.{DriverDecoders, welcome, invalid, handle_register}

-- The account of a new driver: what the request says, a sedan where it names no vehicle, the hash,
-- "available", and a rating of 5.
abbrev pub account : DriverDeps → (id hash : String) → RegisterRequest → Time → DriverRow
account d id hash req clock = record {
  id = id;
  name = req.name;
  email = req.email;
  phone = req.phone;
  password_hash = hash;
  vehicle_type = vehicle_of req;
  license_plate = req.license_plate;
  status = "available";
  rating = d.go.of_nat 5;
  created_at = clock;
}

-- All four texts of a request are accepted.
abbrev pub IsValidRequest : RegisterRequest → Type 0
IsValidRequest req =
    (validate_name req.name ≡ true)
    × (validate_email req.email ≡ true)
    × (validate_phone req.phone ≡ true)
    × (validate_password req.password ≡ true)

invalid-none : (req : RegisterRequest) → invalid req ≡ none → IsValidRequest req
unfolding invalid
invalid-none req e = ground arith

module _ (d : DriverDeps) where
  register_err :
      (id x : String) (salt : ℕ) (now now' : Time) (req : RegisterRequest) (db : DriverDb)
      → check_new d salt req db ≡ err x
      → register d id salt now now' req db ≡ (db, err x)
  unfolding register
  register_err id x salt now now' req db bad = rw (bad, register) refl

  register_ok :
      (id hash : String) (salt : ℕ) (now now' : Time) (req : RegisterRequest) (db : DriverDb)
      → check_new d salt req db ≡ ok hash
      → register d id salt now now' req db
        ≡ create_account d "driver"
            (new_driver d id hash req)
            id
            req.email
            (λ token. registered d id token req)
            now
            now'
            db
  unfolding register
  register_ok id hash salt now now' req db good = rw (good, register) refl

  check_new_hash :
      (salt : ℕ) (req : RegisterRequest) (db : DriverDb) (hash : String)
      → check_new d salt req db ≡ ok hash
      → d.bcrypt.generate_from_password salt req.password ≡ ok hash
  unfolding check_new
  check_new_hash salt req db hash e = ground arith

  module _ (dec : DriverDecoders) where
    handle_register_made :
        (id : String) (salt : ℕ) (now now' : Time) (body : Bytes) (context : Option Claims)
        (db : DriverDb) (resp : AuthResponse)
        → (handle_register d dec id salt now now' body context db).1 ≡ json 201 (welcome resp)
        → let req = (dec.decode_register body).0 in
          ((dec.decode_register body).1 ≡ none)
          × (invalid req ≡ none)
          × ((register d id salt now now' req db).1 ≡ ok resp)
          × ((handle_register d dec id salt now now' body context db).0
              ≡ (register d id salt now now' req db).0)
    unfolding handle_register
    handle_register_made id salt now now' body context db resp e =
        let req = (dec.decode_register body).0 in
        elim (Option-cases (dec.decode_register body).1) [
          | inr (x, failed) ↦ absurd (ground (arith, failed))
          | inl decoded ↦ elim (Option-cases (invalid req)) [
            | inr (x, bad) ↦ absurd (ground (arith, decoded, bad))
            | inl good ↦ elim (Result-cases (register d id salt now now' req db).1) [
              | inr (x, refused) ↦ absurd (ground (arith, decoded, good, refused))
              | inl (made, same) ↦ (
                decoded,
                good,
                ground (arith, decoded, good, same),
                ground (arith, decoded, good),
              )
            ]
          ]
        ]

    -- Whatever the reply, the table is as it was or as `Register` has left it.
    handle_register_db :
        (id : String) (salt : ℕ) (now now' : Time) (body : Bytes) (context : Option Claims)
        (db : DriverDb)
        → ((handle_register d dec id salt now now' body context db).0 ≡ db)
          ⊎ ((handle_register d dec id salt now now' body context db).0
              ≡ (register d id salt now now' (dec.decode_register body).0 db).0)
    unfolding handle_register
    handle_register_db id salt now now' body context db =
        elim (Option-cases (dec.decode_register body).1) [
          | inr (x, failed) ↦ inl (rw (failed, handle_register) refl)
          | inl decoded ↦ elim (Option-cases (invalid (dec.decode_register body).0)) [
            | inr (x, bad) ↦ inl (rw (decoded, bad, handle_register) refl)
            | inl good ↦ inr (rw (decoded, good, handle_register) refl)
          ]
        ]

    module _ (laws : IsAccountSql driver_columns driver_row d.sql) where
      register-IsUnique :
          (id : String) (salt : ℕ) (now now' : Time) (req : RegisterRequest) (db : DriverDb)
          → IsUnique driver_columns db.rows
          → IsUnique driver_columns (register d id salt now now' req db).0.rows
      register-IsUnique id salt now now' req db unique =
          elim (Result-cases (check_new d salt req db)) [
            | inr (x, bad) ↦ rw (register_err id x salt now now' req db bad) unique
            | inl (hash, good) ↦ rw (register_ok id hash salt now now' req db good) (
                create_account-IsUnique d "driver" driver_columns laws (new_driver d id hash req) id
                  req.email (λ token. registered d id token req) now now' db unique)
          ]

      -- On a PostgreSQL that keeps `IsAccountSql`, whatever a registration is answered, no two
      -- drivers have the same address or the same phone afterwards if none had before.
      pub handle_register-IsUnique :
          (id : String) (salt : ℕ) (now now' : Time) (body : Bytes) (context : Option Claims)
          (db : DriverDb)
          → IsUnique driver_columns db.rows
          → IsUnique driver_columns (handle_register d dec id salt now now' body context db).0.rows
      handle_register-IsUnique id salt now now' body context db unique =
          elim (handle_register_db id salt now now' body context db) [
            | inl same ↦ rw same unique
            | inr made ↦
                rw made (register-IsUnique id salt now now' (dec.decode_register body).0 db unique)
          ]

      -- A registration that is answered 201, on a PostgreSQL and a bcrypt as documented: the body
      -- was decoded, all four validators take its texts, and one row was added, with the request's
      -- texts, an address and a phone that no row had, and a hash that takes the password. The
      -- token in the reply is the one of a driver with the new id.
      pub handle_register_201 :
          IsBcrypt d.bcrypt
          → (id : String) (salt : ℕ) (now now' : Time) (body : Bytes) (context : Option Claims)
            (db : DriverDb) (resp : AuthResponse)
          → (handle_register d dec id salt now now' body context db).1 ≡ json 201 (welcome resp)
          → let req = (dec.decode_register body).0 in
            (hash : String) × ((dec.decode_register body).1 ≡ none)
            × IsValidRequest req
            × (d.bcrypt.compare_hash_and_password hash req.password ≡ true)
            × IsNewAccount driver_columns req.email req.phone db.rows
            × ((handle_register d dec id salt now now' body context db).0.rows
                ≡ db.rows ++ account d id hash req db.clock ∷ [])
            × (generate d.jwt d.secret id req.email "driver" now now' ≡ ok resp.token)
            × (resp ≡ registered d id resp.token req)
      unfolding new_driver driver_row registered
      handle_register_201 crypt id salt now now' body context db resp e =
          let req = (dec.decode_register body).0 in
          let (decoded, good, made, after) =
            handle_register_made id salt now now' body context db resp e in
          elim (Result-cases (check_new d salt req db)) [
            | inr (x, bad) ↦
                absurd (ground (arith, register_err id x salt now now' req db bad, made))
            | inl (hash, checked) ↦
                let n = new_driver d id hash req in
                let respond = λ (token : String). registered d id token req in
                let created = register_ok id hash salt now now' req db checked in
                let (token, stored, signed, same) =
                  create_account_ok d "driver" n id req.email respond now now' db resp
                    (rw (← created) made) in
                let (grown, new) = laws.insert_ok n db stored in
                let is : resp.token ≡ token = ap AuthResponse.token same in
                (
                  hash,
                  decoded,
                  invalid-none req good,
                  crypt.compare_generated salt req.password hash
                      (check_new_hash salt req db hash checked),
                  new,
                  rw
                      (
                        after,
                        created,
                        db-create_account d "driver" n id req.email respond now now' db,
                      )
                      grown,
                  rw is signed,
                  same ∙ ap (λ t. registered d id t req) (sym is),
                )
          ]
