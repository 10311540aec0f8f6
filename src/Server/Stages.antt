-- ===== src/Server/Stages.antt =====
-- The steps of `main` (ride-service/cmd/main.go), one at a time.
use Prim.Native.String.{◌++◌ as ◌<>◌}
use text.Mathlib.Text.{◌==◌}
use uber.Base.{String, none, some, true, false, ◌≡◌, refl, ok, err, arith}
use uber.Auth.Tokens.{init}
use uber.Db.Connect.{connect}
use uber.Db.Migrations.{run_migrations}
use uber.Redis.Connect.{new_client}
use uber.Server.Startup.{
  Outside, Machine, later, env, database_url, rdb, start_kafka, start_redis, start_migrations,
  start_database, start_up,
}

module _ {Pool Rdb Topics : Type 0} (o : Outside Pool Rdb Topics) (m : Machine Topics) where
  pub start_redis_ok :
      (c : Rdb)
      → (new_client (rdb o) (o.ping_redis (rdb o))).result ≡ ok c
      → start_redis o m
        ≡ later o (new_client (rdb o) (o.ping_redis (rdb o))).slept (start_kafka o m)
  unfolding start_redis
  start_redis_ok c done = rw (done, start_redis) refl

  pub start_redis_err :
      (e : String)
      → (new_client (rdb o) (o.ping_redis (rdb o))).result ≡ err e
      → start_redis o m ≡ record {
        machine = m;
        slept = (new_client (rdb o) (o.ping_redis (rdb o))).slept;
        fatal = some e;
      }
  unfolding start_redis
  start_redis_err e failed = rw (failed, start_redis) refl

  pub start_migrations_ok :
      (pool : Pool)
      → (run_migrations (o.sql pool) o.fs m.schema).1 ≡ none
      → start_migrations o pool m
        ≡ start_redis o (record m { schema = (run_migrations (o.sql pool) o.fs m.schema).0 })
  unfolding start_migrations
  start_migrations_ok pool done = rw (done, start_migrations) refl

  pub start_migrations_err :
      (pool : Pool) (e : String)
      → (run_migrations (o.sql pool) o.fs m.schema).1 ≡ some e
      → start_migrations o pool m ≡ record {
        machine = record m { schema = (run_migrations (o.sql pool) o.fs m.schema).0 };
        slept = 0;
        fatal = some ("migrations failed:" <> e);
      }
  unfolding start_migrations
  start_migrations_err pool e failed = rw (failed, start_migrations) refl

  pub start_database_ok :
      (pool : Pool)
      → (connect (o.new_pool (database_url o)) o.ping_pool).result ≡ ok pool
      → start_database o m
        ≡ later o
            (connect (o.new_pool (database_url o)) o.ping_pool).slept
            (start_migrations o pool m)
  unfolding start_database
  start_database_ok pool done = rw (done, start_database) refl

  pub start_database_err :
      (e : String)
      → (connect (o.new_pool (database_url o)) o.ping_pool).result ≡ err e
      → start_database o m ≡ record {
        machine = m;
        slept = (connect (o.new_pool (database_url o)) o.ping_pool).slept;
        fatal = some e;
      }
  unfolding start_database
  start_database_err e failed = rw (failed, start_database) refl

  -- An environment without JWT_SECRET, or with an empty one, is the first test.
  pub start_up_some :
      (o.getenv "JWT_SECRET" == "") ≡ false
      → start_up o m ≡ start_database o (record m { secret = o.getenv "JWT_SECRET" })
  unfolding start_up env init
  start_up_some given = ground (arith, given)

  env_empty : (o.getenv "JWT_SECRET" == "") ≡ true → env o "JWT_SECRET" "" ≡ ""
  unfolding env
  env_empty empty = ground (arith, empty)

  init_empty :
      (o.getenv "JWT_SECRET" == "") ≡ true
      → init (env o "JWT_SECRET" "") m.secret ≡ (m.secret, some "JWT_SECRET is required")
  unfolding init
  init_empty empty = rw (env_empty empty) refl

  pub start_up_empty :
      (o.getenv "JWT_SECRET" == "") ≡ true
      → start_up o m ≡ record { machine = m; slept = 0; fatal = some "JWT_SECRET is required" }
  unfolding start_up
  start_up_empty empty = rw (init_empty empty, start_up) (rw (init_empty empty) refl)
