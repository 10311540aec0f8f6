-- ===== src/Server/Tests.antt =====
-- The server on memory: requests that register a rider and read a trip, and a start-up whose
-- servers answer late.
use uber.Base.{
  true, arith, ℕ, ◌≤◌, String, none, some, [], ◌∷◌, ◌≡◌, refl, ◌⊎◌, ok, eqb, if◌then◌else◌,
}
use text.Mathlib.Text.{◌==◌}
use uber.Http.{json, plain}
use uber.Auth.Tokens.{IsGenuine, new_claims, generate, init}
use uber.Auth.OneToken.{one_token, one_token-IsGoJwt, one_claims}
use uber.Auth.Middleware.{bearer}
use uber.Accounts.Table.{find_email}
use uber.Accounts.Memory.{
  accounts_memory-IsAccountSql, insert_row, plain-IsBcrypt as unhashed-IsBcrypt,
}
use uber.Trips.Handler as Trips
use uber.Users.Handler as Users
use uber.Users.Service.{register}
use uber.Users.Store.{user_row, user_columns}
use uber.Drivers.Store.{driver_row, driver_columns}
use uber.Db.Connect.{connect}
use uber.Db.Files.{sort_strings, sql_files}
use uber.Db.Migrations.{run_migrations}
use uber.Db.Memory.{memory, memory-IsMigrationSql, files, migrated, fresh as fresh_schema}
use uber.Redis.Connect.{new_client}
use uber.Kafka.Topics.{ensure_topics}
use uber.Server.Model.{users_at, trips_at, user, Request}
use uber.Server.Memory.{parts, fresh, request_to}
use uber.Server.Router.{mounted, serve}
use uber.Server.Contract.{fits}
use uber.Server.Answers.{serve_fits}
use uber.Server.Guard.{serve_guards, serve_public}
use uber.Users.Model.{AuthResponse}
use uber.Server.Journey.{as_rider, serve-IsWelcome}
use uber.Server.Startup.{Outside, Machine, start_up, env}
use uber.Server.Lifetime.{main, signal, listener_returns, died}
use uber.Server.Endings.{Decided, main_lem}
use uber.Server.Started.{IsReady, start_up_slept, start_up-IsReady}

abbrev asks : Request
asks = request_to (trips_at Trips.post_request) "Bearer t"

abbrev registers : Request
registers = request_to (users_at Users.post_register) "Bearer bad"

serve_guards_example :
    (serve parts asks fresh ≡ (fresh, plain 401 "{\"error\":\"unauthorized\"}"))
    ⊎ ((raw : String) × (bearer "Bearer t" ≡ some raw)
        × IsGenuine (one_token "rider") "k" 500 raw
        × (serve parts asks fresh
            ≡ mounted parts (trips_at Trips.post_request) asks (some (one_claims "rider")) fresh))
serve_guards_example = serve_guards parts (one_token-IsGoJwt "rider") asks fresh refl

serve_public_example :
    serve parts (request_to (users_at Users.post_register) "") fresh ≡ serve parts registers fresh
serve_public_example = serve_public parts registers "" fresh refl

serve_fits_example : fits asks.endpoint (serve parts asks fresh).1 ≡ true
serve_fits_example = serve_fits parts asks fresh

abbrev outside : Outside ℕ ℕ ℕ
outside = record {
  getenv = λ key. if key == "JWT_SECRET" then "k" else "";
  new_pool = λ url i. ok i;
  ping_pool = λ i pool. if eqb i 2 then none else some "connection refused";
  sql = λ pool. memory;
  fs = files;
  open_redis = λ addr. 0;
  ping_redis = λ rdb i. if eqb i 1 then none else some "connection refused";
  dial = λ broker i. if eqb i 3 then none else some "connection refused";
  create_topics = λ configs n. (n, none);
}

abbrev machine : Machine ℕ
machine = record { secret = ""; schema = fresh_schema; topics = 0 }

start_up_slept_example : (start_up outside machine).slept ≤ 156
start_up_slept_example = start_up_slept outside machine

starts : start_up outside machine ≡ record {
  machine = record machine { secret = "k"; schema = migrated };
  slept = 12;
  fatal = none;
}
unfolding start_up env init connect run_migrations sort_strings sql_files new_client ensure_topics
starts = refl

start_up-IsReady_example : IsReady outside machine (start_up outside machine).machine
unfolding start_up env init connect run_migrations sort_strings sql_files new_client ensure_topics
start_up-IsReady_example = start_up-IsReady outside (λ pool. memory-IsMigrationSql) machine refl

abbrev hello : AuthResponse
hello = record {
  token = "t";
  user = record {
    id = "u1";
    name = "Ann";
    email = "a@b.co";
    phone = "+15550001";
    password_hash = "";
    rating = 5;
    created_at = none;
  };
}

welcomes : (serve parts registers fresh).1 ≡ json 201 (user (Users.welcome hello))
unfolding serve Users.routes register find_email insert_row generate new_claims
welcomes = refl

serve-IsWelcome_example :
    serve parts asks fresh
    ≡ mounted parts
        (trips_at Trips.post_request)
        asks
        (some (new_claims (one_token "rider") "u1" "a@b.co" "rider" 10 20))
        fresh
unfolding bearer
serve-IsWelcome_example =
    serve-IsWelcome parts unhashed-IsBcrypt (accounts_memory-IsAccountSql user_columns user_row)
      (accounts_memory-IsAccountSql driver_columns driver_row) (one_token-IsGoJwt "rider") registers
      fresh "t" (new_claims (one_token "rider") "u1" "a@b.co" "rider" 10 20)
      (as_rider hello welcomes) asks fresh refl (omega arith) refl

main_lem_example :
    ((e : String) × ((start_up outside machine).fatal ≡ some e)
      × ((main outside machine (signal ∷ [])).1 ≡ some (died e)))
    ⊎ (IsReady outside machine (main outside machine (signal ∷ [])).0
        × Decided (signal ∷ []) (main outside machine (signal ∷ [])).1)
main_lem_example = main_lem outside (λ pool. memory-IsMigrationSql) machine (signal ∷ [])

-- The listener's own end is not counted, and the port that is taken kills the process.
dies :
    (main outside machine
      (listener_returns none ∷ listener_returns (some "address already in use") ∷ [])).1
    ≡ some (died "address already in use")
unfolding main start_up env init connect run_migrations sort_strings sql_files new_client
    ensure_topics
dies = refl
