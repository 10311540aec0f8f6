-- ===== src/Users/Tests.antt =====
-- A table of accounts in memory, and the theorems at runs on it.
use text.Mathlib.Text.{◌==◌}
use uber.Base.{String, none, true, [], ◌∷◌, ◌++◌, ◌≡◌, refl, arith, ok, err}
use uber.Http.{json}
use uber.Auth.Tokens.{new_claims, generate}
use uber.Auth.OneToken.{one_token}
use uber.Users.Model.{RegisterRequest, AuthResponse}
use uber.Accounts.Table.{AccountSql, IsAccountSql, find_email, IsNewAccount}
use uber.Accounts.Memory.{
  accounts_memory, accounts_memory-IsAccountSql, insert_row, query_row, plain, plain-IsBcrypt,
}
use uber.Users.Store.{UserRow, NewUser, user_row, user_columns}
use uber.Users.Service.{UserDb, UserDeps, user_of, new_user, registered, register, login}
use uber.Users.Accounts.{account, register_ok, login_registered}
use uber.Users.Handler.{UserDecoders, error, handle_login}
use uber.Users.Replies.{handle_login_hides}
use uber.Trips.Memory.{whole}

abbrev memory : AccountSql UserRow NewUser
memory = accounts_memory user_columns user_row

memory-IsAccountSql : IsAccountSql user_columns user_row memory
memory-IsAccountSql = accounts_memory-IsAccountSql user_columns user_row

abbrev deps : UserDeps
deps = record { go = whole; sql = memory; bcrypt = plain; jwt = (one_token "rider"); secret = "k" }

abbrev no_users : UserDb
no_users = record { rows = []; clock = 7; hidden = 0 }

abbrev rider : RegisterRequest
rider = record { name = "Ann"; email = "a@b.co"; phone = "+15550001"; password = "secret" }

abbrev welcome : AuthResponse
welcome = record {
  token = "t";
  user = record {
    id = "u1";
    name = "Ann";
    email = "a@b.co";
    phone = "+15550001";
    password_hash = "";
    rating = 5;
    created_at = none;
  };
}

registers : (register deps "u1" 3 10 20 rider no_users).1 ≡ ok welcome
unfolding register insert_row new_user registered generate new_claims find_email
registers = refl

abbrev one_user : UserDb
one_user = (register deps "u1" 3 10 20 rider no_users).0

abbrev ann : UserRow
ann = user_row (new_user deps "u1" "secret" rider) 7

stored : memory.query_email "a@b.co" one_user ≡ ok ann
unfolding register insert_row query_row new_user find_email user_row
stored = refl

made : generate (one_token "rider") "k" "u1" "a@b.co" "rider" 10 20 ≡ ok "t"
unfolding generate new_claims
made = refl

taken :
    (register deps "u2" 3 10 20 (record rider { phone = "+15550002" }) one_user).1
    ≡ err "email already exists"
unfolding register insert_row new_user find_email user_row
taken = refl

register_ok_example :
    (hash : String) × ((hash == "secret") ≡ true)
    × IsNewAccount user_columns "a@b.co" "+15550001" []
    × (one_user.rows ≡ [] ++ account deps "u1" hash rider 7 ∷ [])
    × (generate (one_token "rider") "k" "u1" "a@b.co" "rider" 10 20 ≡ ok "t")
    × (welcome ≡ registered deps "u1" "t" rider)
register_ok_example =
    register_ok deps memory-IsAccountSql plain-IsBcrypt "u1" 3 10 20 rider no_users welcome
      registers

logs_in :
    login deps 10 20 (record { email = "a@b.co"; password = "secret" }) one_user
    ≡ ok (record { token = "t"; user = user_of ann })
unfolding login query_row register insert_row new_user find_email generate new_claims user_row
logs_in = refl

login_registered_example :
    (again : AuthResponse) × (login deps 10 20
        (record { email = "a@b.co"; password = "secret" })
        one_user
      ≡ ok again)
    × (again.token ≡ "t")
    × (again.user.id ≡ "u1")
login_registered_example =
    login_registered deps memory-IsAccountSql plain-IsBcrypt "u1" 3 10 20 10 20 rider no_users
      welcome ann "t" registers stored made

abbrev guess : UserDecoders
guess = record {
  decode_register = λ b. (rider, none);
  decode_login = λ b. (record { email = "a@b.co"; password = "letmein" }, none);
}

only_ann : (u : UserRow) → memory.query_email "a@b.co" one_user ≡ ok u → u ≡ ann
only_ann u e = ground (arith, stored)

handle_login_hides_example :
    handle_login deps guess 10 20 [] none one_user
    ≡ (one_user, json 401 (error "invalid credentials"))
unfolding user_row new_user
handle_login_hides_example =
    handle_login_hides deps guess 10 20 [] none one_user refl (λ u e. rw (only_ann u e) refl)
