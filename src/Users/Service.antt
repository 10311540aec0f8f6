-- ===== src/Users/Service.antt =====
-- ride-service/internal/users/service.go: the operations of `Service`, as functions of the table.
-- `uuid.New()`, bcrypt's salt and the times that `jwt.Generate` reads are arguments.
use uber.Base.{ℕ, String, Time, none, some, Bool, false, Result, ok, err, if◌then◌else◌}
use uber.Accounts.Table.{Table}
use uber.Accounts.Steps.{AccountDeps, create_account, login_account}
use uber.Users.Model.{User, RegisterRequest, LoginRequest, AuthResponse}
use uber.Users.Store.{UserRow, NewUser, user_columns}

abbrev pub UserDb : Type 0
UserDb = Table UserRow

-- What `Service` works with, and the standard library.
abbrev pub UserDeps : Type 0
UserDeps = AccountDeps UserRow NewUser

-- What `Scan` leaves in a variable.
abbrev pub scanned : (old : Bool) → Result Bool → Bool
scanned old (ok b) = b
scanned old (err e) = old

-- The fields that `Login` and `GetByID` scan; the hash stays out of the user.
unfoldable pub user_of : UserRow → User
user_of u = record {
  id = u.id;
  name = u.name;
  email = u.email;
  phone = u.phone;
  password_hash = "";
  rating = u.rating;
  created_at = some u.created_at;
}

-- The answer to a rider who has logged in.
abbrev pub logged_in : UserRow → (token : String) → AuthResponse
logged_in u token = record { token = token; user = user_of u }

module _ (d : UserDeps) where
  open d use {go, sql, bcrypt}

  unfoldable pub new_user : (id hash : String) → RegisterRequest → NewUser
  new_user id hash req = record {
    id = id;
    name = req.name;
    email = req.email;
    phone = req.phone;
    password_hash = hash;
    rating = go.of_nat 5;
  }

  -- The answer to a new rider.
  unfoldable pub registered : (id token : String) → RegisterRequest → AuthResponse
  registered id token req = record {
    token = token;
    user = record {
      id = id;
      name = req.name;
      email = req.email;
      phone = req.phone;
      password_hash = "";
      rating = go.of_nat 5;
      created_at = none;
    };
  }

  -- The INSERT and the token.
  unfoldable pub add_account :
      (id hash : String) (now now' : Time) → RegisterRequest → UserDb → UserDb × Result AuthResponse
  unfolding create_account registered
  add_account id hash now now' req db =
      create_account d "rider" (new_user id hash req) id req.email
        (λ token. registered id token req) now now' db

  -- The errors of the two EXISTS queries are dropped.
  unfoldable pub register :
      (id : String) (salt : ℕ) (now now' : Time)
      → RegisterRequest
      → UserDb
      → UserDb × Result AuthResponse
  unfolding add_account
  register id salt now now' req db =
      let exists = scanned false (sql.exists_email req.email db) in
      let exists' = scanned exists (sql.exists_phone req.phone db) in
      if exists
      then (db, err "email already exists")
      else if exists'
      then (db, err "phone already exists")
      else elim (bcrypt.generate_from_password salt req.password) [
        | err e ↦ (db, err e)
        | ok hash ↦ add_account id hash now now' req db
      ]

  unfoldable pub login : (now now' : Time) → LoginRequest → UserDb → Result AuthResponse
  unfolding login_account user_of
  login now now' req db =
      login_account d "rider" user_columns logged_in now now' req.email req.password db

  unfoldable pub get_user : (id : String) → UserDb → Result User
  unfolding user_of
  get_user id db = elim (sql.query_id id db) [
    | err e ↦ err "user not found"
    | ok u ↦ ok (user_of u)
  ]
