-- ===== src/Db/Tests.antt =====
-- Connecting to a server that answers in its third round, and migrations on a database in memory.
use uber.Base.{ℕ, String, Option, none, some, [], ◌∷◌, ◌≡◌, refl, ok, eqb, if◌then◌else◌}
use uber.Db.Connect.{connect, connect_from}
use uber.Db.Files.{sql_files, sort_strings}
use uber.Db.Migrations.{run_migrations, migrate_files}
use uber.Db.Memory.{memory, memory-IsMigrationSql, directory, files, fresh, migrated}
use uber.Db.Progress.{Progress}
use uber.Db.Applied.{run_migrations-Progress}
use uber.Db.Again.{run_migrations-run_migrations}

-- The pool of round `i` is `i`, and only that of round 2 answers.
abbrev third : ℕ → ℕ → Option String
third i pool = if eqb i 2 then none else some "connection refused"

connects : connect (λ i. ok i) third ≡ record { slept = 4; dropped = 0 ∷ 1 ∷ []; result = ok 2 }
unfolding connect connect_from
connects = refl

migrates : run_migrations memory files fresh ≡ (migrated, none)
unfolding run_migrations migrate_files sql_files sort_strings
migrates = refl

-- The tenth version would come before the second.
tenth : sort_strings ("V2_b.sql" ∷ "V10_c.sql" ∷ []) ≡ "V10_c.sql" ∷ "V2_b.sql" ∷ []
unfolding sort_strings
tenth = refl

run_migrations-Progress_example :
    Progress files
      (sort_strings (sql_files directory))
      fresh
      (run_migrations memory files fresh).0
      (run_migrations memory files fresh).1
run_migrations-Progress_example =
    run_migrations-Progress memory files memory-IsMigrationSql directory fresh refl refl

run_migrations-run_migrations_example :
    ((run_migrations memory files (run_migrations memory files fresh).0).0.applied
      ≡ (run_migrations memory files fresh).0.applied)
    × ((run_migrations memory files (run_migrations memory files fresh).0).0.executed
        ≡ (run_migrations memory files fresh).0.executed)
unfolding run_migrations migrate_files sql_files sort_strings
run_migrations-run_migrations_example =
    run_migrations-run_migrations memory files memory-IsMigrationSql directory fresh refl refl refl
      refl refl
