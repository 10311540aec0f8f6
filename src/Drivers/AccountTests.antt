-- ===== src/Drivers/AccountTests.antt =====
-- The endpoints for the accounts of drivers on a table in memory, and the theorems at these runs.
use text.Mathlib.Text.{◌==◌}
use uber.Base.{String, none, true, false, [], ◌∷◌, ◌++◌, ◌≡◌, refl, ok}
use uber.Http.{json}
use uber.Auth.Tokens.{new_claims, generate}
use uber.Auth.OneToken.{one_token}
use uber.Validation.Regex.{matches}
use uber.Validation.{
  validate_name, validate_email, validate_phone, validate_password, email_regex, phone_regex,
  trim_space, trim_left,
}
use uber.Accounts.Table.{AccountSql, IsAccountSql, find_email, IsNewAccount}
use uber.Accounts.Steps.{create_account}
use uber.Accounts.Memory.{
  accounts_memory, accounts_memory-IsAccountSql, insert_row, plain, plain-IsBcrypt,
}
use uber.Drivers.Model.{RegisterRequest, AuthResponse}
use uber.Drivers.Store.{DriverRow, NewDriver, driver_row, driver_columns}
use uber.Drivers.Service.{
  DriverDb, DriverDeps, new_driver, registered, register, check_new, vehicle_of,
}
use uber.Drivers.Handler.{DriverDecoders, welcome, handle_register, invalid}
use uber.Drivers.Accounts.{account, IsValidRequest, handle_register_201}
use uber.Trips.Memory.{whole}

-- This table can search for phones.
abbrev memory : AccountSql DriverRow NewDriver
memory = record (accounts_memory driver_columns driver_row) { exists_phone = λ phone db. ok false }

memory-IsAccountSql : IsAccountSql driver_columns driver_row memory
memory-IsAccountSql =
    let laws = accounts_memory-IsAccountSql driver_columns driver_row in
    record {
      insert_atomic = laws.insert_atomic;
      insert_ok = laws.insert_ok;
      query_email_ok = laws.query_email_ok;
    }

abbrev deps : DriverDeps
deps = record { go = whole; sql = memory; bcrypt = plain; jwt = one_token "driver"; secret = "k" }

abbrev nobody : DriverDb
nobody = record { rows = []; clock = 7; hidden = 0 }

abbrev ann : RegisterRequest
ann = record {
  name = "Ann";
  email = "a@b.co";
  phone = "+15550001";
  password = "secret";
  vehicle_type = "";
  license_plate = "AB 12";
}

abbrev bodies : DriverDecoders
bodies = record {
  decode_register = λ b. (ann, none);
  decode_login = λ b. (record { email = "a@b.co"; password = "secret" }, none);
}

abbrev hello : AuthResponse
hello = record {
  token = "t";
  driver = record {
    id = "u1";
    name = "Ann";
    email = "a@b.co";
    phone = "+15550001";
    password_hash = "";
    vehicle_type = "sedan";
    license_plate = "AB 12";
    status = "available";
    rating = 5;
    created_at = none;
  };
}

registers : (handle_register deps bodies "u1" 3 10 20 [] none nobody).1 ≡ json 201 (welcome hello)
unfolding handle_register register check_new create_account insert_row new_driver registered invalid
    validate_name validate_email validate_phone validate_password trim_space trim_left matches
    email_regex phone_regex generate new_claims find_email vehicle_of
registers = refl

handle_register_201_example :
    (hash : String) × ((bodies.decode_register []).1 ≡ none)
    × IsValidRequest ann
    × ((hash == "secret") ≡ true)
    × IsNewAccount driver_columns "a@b.co" "+15550001" []
    × ((handle_register deps bodies "u1" 3 10 20 [] none nobody).0.rows
        ≡ [] ++ account deps "u1" hash ann 7 ∷ [])
    × (generate (one_token "driver") "k" "u1" "a@b.co" "driver" 10 20 ≡ ok "t")
    × (hello ≡ registered deps "u1" "t" ann)
handle_register_201_example =
    handle_register_201 deps bodies memory-IsAccountSql plain-IsBcrypt "u1" 3 10 20 [] none nobody
      hello registers
