-- ===== src/Db/Migrations.antt =====
-- `RunMigrations` of ride-service/pkg/db/postgres.go. What PostgreSQL does with its statements, and
-- the directory that is embedded, are parameters; what the loop relies on is `IsMigrationSql`.
use Prim.Native.String.{◌++◌ as ◌<>◌}
use text.Mathlib.Text.{◌==◌}
use uber.Base.{
  ℕ, String, Option, none, some, Bool, true, false, List, [], ◌∷◌, ◌++◌, ◌≡◌, ◌⊎◌, Result, ok, err,
  ltb, if◌then◌else◌,
}
use uber.Db.Files.{Entry, sql_files, sort_strings}

-- The rows of schema_migrations, and the scripts that have taken effect, oldest first.
pub record Schema : Type 0 where
  pub applied : List String
  pub executed : List String
  pub hidden : ℕ

pub record MigrationSql : Type 0 where
  pub create_table : Schema → Schema × Option String
  pub query_count : (version : String) → Schema → Result ℕ
  pub exec_script : (content : String) → Schema → Schema × Option String
  pub exec_record : (version : String) → Schema → Schema × Option String

-- The embedded directory.
pub record Fs : Type 0 where
  pub read_dir : Result (List Entry)
  pub read_file : String → Result String

abbrev pub contains : String → List String → Bool
contains f [] = false
contains f (x ∷ xs) = let rest = contains f xs in if x == f then true else rest

-- Each statement takes effect as a whole or not at all, and one that succeeds has taken effect; a
-- script does not write schema_migrations. A count is that of the rows, and the primary key keeps a
-- second row of a version out.
pub record IsMigrationSql (sql : MigrationSql) : Type 0 where
  pub create_keeps :
      (s : Schema)
      → ((sql.create_table s).0.applied ≡ s.applied)
        × ((sql.create_table s).0.executed ≡ s.executed)
  pub count_ok :
      (f : String) (s : Schema) (n : ℕ)
      → sql.query_count f s ≡ ok n
      → ltb 0 n ≡ contains f s.applied
  pub script_keeps : (c : String) (s : Schema) → (sql.exec_script c s).0.applied ≡ s.applied
  pub script_atomic :
      (c : String) (s : Schema)
      → ((sql.exec_script c s).0.executed ≡ s.executed)
        ⊎ ((sql.exec_script c s).0.executed ≡ s.executed ++ c ∷ [])
  pub script_ok :
      (c : String) (s : Schema)
      → (sql.exec_script c s).1 ≡ none
      → (sql.exec_script c s).0.executed ≡ s.executed ++ c ∷ []
  pub record_keeps : (f : String) (s : Schema) → (sql.exec_record f s).0.executed ≡ s.executed
  pub record_atomic :
      (f : String) (s : Schema)
      → ((sql.exec_record f s).0.applied ≡ s.applied)
        ⊎ (((sql.exec_record f s).0.applied ≡ s.applied ++ f ∷ []) × (contains f s.applied ≡ false))
  pub record_ok :
      (f : String) (s : Schema)
      → (sql.exec_record f s).1 ≡ none
      → ((sql.exec_record f s).0.applied ≡ s.applied ++ f ∷ []) × (contains f s.applied ≡ false)

-- What `Scan` leaves in `count`.
abbrev pub counted : Result ℕ → ℕ
counted (ok n) = n
counted (err e) = 0

module _ (sql : MigrationSql) (fs : Fs) where
  -- The loop's body from `ReadFile` on.
  unfoldable pub apply_file : String → Schema → Schema × Option String
  apply_file file s = elim (fs.read_file file) [
    | err e ↦ (s, some ("read " <> (file <> (": " <> e))))
    | ok content ↦
        let (s', failed) = sql.exec_script content s in
        elim failed [
          | some e ↦ (s', some ("exec " <> (file <> (": " <> e))))
          | none ↦
              let (s'', failed') = sql.exec_record file s' in
              elim failed' [
                | some e ↦ (s'', some ("record " <> (file <> (": " <> e))))
                | none ↦ (s'', none)
              ]
        ]
  ]

  -- One round of the loop. An error of the count is dropped.
  unfoldable pub migrate_file : String → Schema → Schema × Option String
  unfolding apply_file
  migrate_file file s =
      if ltb 0 (counted (sql.query_count file s)) then (s, none) else apply_file file s

  unfoldable pub migrate_files : List String → Schema → Schema × Option String
  unfolding migrate_file
  migrate_files [] s = (s, none)
  migrate_files (file ∷ files) s =
      let (s', failed) = migrate_file file s in
      elim failed [ some e ↦ (s', some e) | none ↦ migrate_files files s' ]

  unfoldable pub run_migrations : Schema → Schema × Option String
  unfolding migrate_files
  run_migrations s =
      let (s', failed) = sql.create_table s in
      elim failed [
        | some e ↦ (s', some ("create schema_migrations: " <> e))
        | none ↦ elim fs.read_dir [
          | err e ↦ (s', some ("read migrations dir: " <> e))
          | ok entries ↦ migrate_files (sort_strings (sql_files entries)) s'
        ]
      ]
