-- ===== src/Server/Started.antt =====
-- How `main` starts up: when it goes on to serve, and how long it waits.
use text.Mathlib.Text.{◌==◌}
use uber.Base.{
  ℕ, ◌≤◌, ◌<◌, none, true, false, List, ◌≡◌, inl, inr, arith, Option-cases, Bool-cases, ok, All,
  IsFirst, ap, ◌∙◌,
}
use uber.Db.Dialling.{answers, connect_lem}
use uber.Db.Files.{Entry, sql_files, sort_strings}
use uber.Db.Migrations.{IsMigrationSql, contains, run_migrations}
use uber.Db.Again.{run_migrations_ok, run_migrations-All}
use uber.Redis.Connect.{pong, new_client_lem}
use uber.Kafka.Topics.{configs, dialled, ensure_topics_lem}
use uber.Server.Stages.{
  start_redis_ok, start_redis_err, start_migrations_ok, start_migrations_err, start_database_ok,
  start_database_err, start_up_some, start_up_empty,
}
use uber.Server.Startup.{
  Outside, Machine, Started, topic_names, database_url, rdb, broker, start_kafka, start_redis,
  start_migrations, start_database, start_up,
}

module _ {Pool Rdb Topics : Type 0} (o : Outside Pool Rdb Topics) where
  -- The environment has a secret, PostgreSQL and Redis and the first broker answered, the scripts
  -- of the directory are recorded, and the topics were asked for.
  pub record IsReady (m m' : Machine Topics) : Type 0 where
    pub secret_set : m'.secret ≡ o.getenv "JWT_SECRET"
    pub secret_some : (o.getenv "JWT_SECRET" == "") ≡ false
    pub pool :
        (k : ℕ) × (pool : Pool) × (k < 30)
        × IsFirst (answers (o.new_pool (database_url o)) o.ping_pool) 0 k pool
    pub migrated :
        (entries : List Entry) × (o.fs.read_dir ≡ ok entries)
        × All (λ f. contains f m'.schema.applied ≡ true) (sort_strings (sql_files entries))
    pub redis : (k : ℕ) × (k < 20) × IsFirst (pong (rdb o) (o.ping_redis (rdb o))) 0 k (rdb o)
    pub kafka : (k : ℕ) × (k < 21) × IsFirst (dialled (o.dial (broker o)) o.create_topics) 1 k tt
    pub created : m'.topics ≡ (o.create_topics (configs topic_names) m.topics).0

  start_kafka_slept : (m : Machine Topics) → (start_kafka o m).slept ≤ 60
  unfolding start_kafka
  start_kafka_slept m =
      elim (ensure_topics_lem (o.dial (broker o)) o.create_topics topic_names m.topics) [
        | inl (k, low, _, _, _, slept) ↦ omega arith
        | inr (_, _, _, slept) ↦ omega arith
      ]

  start_redis_slept : (m : Machine Topics) → (start_redis o m).slept ≤ 98
  start_redis_slept m = elim (new_client_lem (rdb o) (o.ping_redis (rdb o))) [
    | inl (k, low, _, done, slept) ↦
        rw (start_redis_ok o m (rdb o) done) (omega (arith, start_kafka_slept m))
    | inr (_, failed, slept) ↦ rw (start_redis_err o m _ failed) (omega arith)
  ]

  start_migrations_slept :
      (pool : Pool) (m : Machine Topics) → (start_migrations o pool m).slept ≤ 98
  start_migrations_slept pool m =
      elim (Option-cases (run_migrations (o.sql pool) o.fs m.schema).1) [
        | inl fine ↦ rw (start_migrations_ok o m pool fine) (start_redis_slept _)
        | inr (e, bad) ↦ rw (start_migrations_err o m pool e bad) (omega arith)
      ]

  start_database_slept : (m : Machine Topics) → (start_database o m).slept ≤ 156
  start_database_slept m = elim (connect_lem (o.new_pool (database_url o)) o.ping_pool) [
    | inl (k, pool, low, _, done, slept) ↦
        rw (start_database_ok o m pool done) (omega (arith, start_migrations_slept pool m))
    | inr (_, (e, failed), slept) ↦ rw (start_database_err o m e failed) (omega arith)
  ]

  -- Whatever the servers answer, `main` has slept at most 156 seconds when its loops are over, and
  -- has ended or goes on to serve.
  pub start_up_slept : (m : Machine Topics) → (start_up o m).slept ≤ 156
  start_up_slept m = elim (Bool-cases (o.getenv "JWT_SECRET" == "")) [
    | inl empty ↦ rw (start_up_empty o m empty) (omega arith)
    | inr given ↦ rw (start_up_some o m given) (start_database_slept _)
  ]

  start_kafka_ready :
      (m : Machine Topics)
      → (start_kafka o m).fatal ≡ none
      → ((k : ℕ) × (k < 21) × IsFirst (dialled (o.dial (broker o)) o.create_topics) 1 k tt)
        × ((start_kafka o m).machine
            ≡ record m { topics = (o.create_topics (configs topic_names) m.topics).0 })
  unfolding start_kafka
  start_kafka_ready m fine =
      elim (ensure_topics_lem (o.dial (broker o)) o.create_topics topic_names m.topics) [
        | inl (k, low, first, _, made, _) ↦
            ((k, low, first), ap (λ topics. record m { topics = topics }) made)
        | inr (_, failed, _, _) ↦ absurd (ground (arith, failed))
      ]

  start_redis_ready :
      (m : Machine Topics)
      → (start_redis o m).fatal ≡ none
      → ((k : ℕ) × (k < 20) × IsFirst (pong (rdb o) (o.ping_redis (rdb o))) 0 k (rdb o))
        × ((start_redis o m).machine ≡ (start_kafka o m).machine)
        × ((start_kafka o m).fatal ≡ none)
  start_redis_ready m fine = elim (new_client_lem (rdb o) (o.ping_redis (rdb o))) [
    | inl (k, low, first, done, _) ↦
        let same = start_redis_ok o m (rdb o) done in
        ((k, low, first), ap Started.machine same, rw (same) at fine)
    | inr (_, failed, _) ↦ absurd (ground (arith, start_redis_err o m _ failed, fine))
  ]

  start_migrations_ready :
      (pool : Pool)
      → IsMigrationSql (o.sql pool)
      → (m : Machine Topics) → (start_migrations o pool m).fatal ≡ none
      → let m' = record m { schema = (run_migrations (o.sql pool) o.fs m.schema).0 } in
        ((entries : List Entry) × (o.fs.read_dir ≡ ok entries)
          × All (λ f. contains f m'.schema.applied ≡ true) (sort_strings (sql_files entries)))
        × ((start_migrations o pool m).machine ≡ (start_redis o m').machine)
        × ((start_redis o m').fatal ≡ none)
  start_migrations_ready pool laws m fine =
      elim (Option-cases (run_migrations (o.sql pool) o.fs m.schema).1) [
        | inl done ↦
            let same = start_migrations_ok o m pool done in
            let (made, (entries, dir)) = run_migrations_ok (o.sql pool) o.fs m.schema done in
            (
              (
                entries,
                dir,
                run_migrations-All (o.sql pool) o.fs laws entries m.schema dir made done,
              ),
              ap Started.machine same,
              rw same at fine,
            )
        | inr (e, bad) ↦ absurd (ground (arith, start_migrations_err o m pool e bad, fine))
      ]

  start_database_ready :
      (m : Machine Topics)
      → (start_database o m).fatal ≡ none
      → (k : ℕ) × (pool : Pool) × (k < 30)
        × IsFirst (answers (o.new_pool (database_url o)) o.ping_pool) 0 k pool
        × ((start_database o m).machine ≡ (start_migrations o pool m).machine)
        × ((start_migrations o pool m).fatal ≡ none)
  start_database_ready m fine = elim (connect_lem (o.new_pool (database_url o)) o.ping_pool) [
    | inl (k, pool, low, first, done, _) ↦
        let same = start_database_ok o m pool done in
        (k, pool, low, first, ap Started.machine same, rw same at fine)
    | inr (_, (e, failed), _) ↦ absurd (ground (arith, start_database_err o m e failed, fine))
  ]

  -- On a PostgreSQL that keeps `IsMigrationSql`, a start-up that goes on to serve has found a
  -- secret in the environment and keeps it; PostgreSQL, Redis and the first broker have answered,
  -- each within its rounds; every script of the directory is recorded; and the three topics were
  -- asked for.
  pub start_up-IsReady :
      ((pool : Pool) → IsMigrationSql (o.sql pool))
      → (m : Machine Topics) → (start_up o m).fatal ≡ none
      → IsReady m (start_up o m).machine
  start_up-IsReady laws m fine = elim (Bool-cases (o.getenv "JWT_SECRET" == "")) [
    | inl empty ↦ absurd (ground (arith, start_up_empty o m empty, fine))
    | inr given ↦
        let m1 : Machine Topics = record m { secret = o.getenv "JWT_SECRET" } in
        let same = start_up_some o m given in
        let (k, pool, low, first, up1, fine1) = start_database_ready m1 (rw same at fine) in
        let (migrated, up2, fine2) = start_migrations_ready pool (laws pool) m1 fine1 in
        let (redis, up3, fine3) = start_redis_ready _ fine2 in
        let (kafka, up4) = start_kafka_ready _ fine3 in
        let all = ap Started.machine same ∙ up1 ∙ up2 ∙ up3 ∙ up4 in
        record {
          secret_set = ap Machine.secret all;
          secret_some = given;
          pool = (k, pool, low, first);
          migrated =
              let (entries, dir, covered) = migrated in
              (entries, dir, rw (ap (λ (m : Machine Topics). m.schema.applied) all) covered);
          redis = redis;
          kafka = kafka;
          created = ap Machine.topics all;
        }
  ]
