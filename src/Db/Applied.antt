-- ===== src/Db/Applied.antt =====
-- What `RunMigrations` has done to the database, however it ends.
use uber.Base.{
  String, Option, none, some, List, [], ◌∷◌, ◌≡◌, refl, inl, inr, arith, Option-cases, ok,
}
use uber.Db.Files.{Entry, sql_files, sort_strings}
use uber.Db.Migrations.{
  Schema, MigrationSql, IsMigrationSql, Fs, migrate_file, migrate_files, run_migrations,
}
use uber.Db.Rounds.{Round, skipped, recorded_now, stopped, migrate_file-Round}
use uber.Db.Progress.{
  Progress, Progress-skip, Progress-record, Progress-stop, Progress-nil, Progress-start,
}

module _ (sql : MigrationSql) (fs : Fs) (laws : IsMigrationSql sql) where
  migrate_files_stop :
      (f : String) (files : List String) (s : Schema) (e : String)
      → (migrate_file sql fs f s).1 ≡ some e
      → migrate_files sql fs (f ∷ files) s ≡ ((migrate_file sql fs f s).0, some e)
  unfolding migrate_files
  migrate_files_stop f files s e bad = rw (bad, migrate_files) refl

  migrate_files_next :
      (f : String) (files : List String) (s : Schema)
      → (migrate_file sql fs f s).1 ≡ none
      → migrate_files sql fs (f ∷ files) s ≡ migrate_files sql fs files (migrate_file sql fs f s).0
  unfolding migrate_files
  migrate_files_next f files s fine = rw (fine, migrate_files) refl

  next-Progress :
      (f : String) (files : List String) (s s1 s' : Schema) (r failed : Option String)
      → Round sql fs laws f s s1 r
      → r ≡ none
      → Progress fs files s1 s' failed
      → Progress fs (f ∷ files) s s' failed
  next-Progress f files s s1 s' r failed (skipped old same _) fine p =
      Progress-skip fs f files s s' failed old (rw (← same) p)
  next-Progress f files s s1 s' r failed (recorded_now c new read more ran) fine p =
      Progress-record fs f c files s s1 s' failed new read more ran p
  next-Progress f files s s1 s' r failed (stopped e extra bad _ _ _) fine p = absurd (ground arith)

  stop-Progress :
      (f e : String) (files : List String) (s s1 : Schema) (r : Option String)
      → Round sql fs laws f s s1 r
      → r ≡ some e
      → Progress fs (f ∷ files) s s1 (some e)
  stop-Progress f e files s s1 r (skipped old same fine) bad = absurd (ground arith)
  stop-Progress f e files s s1 r (recorded_now c new read more ran) bad =
      Progress-record fs f c files s s1 s1 (some e) new read more ran
        (Progress-nil fs files s1 (some e) (λ h. cc))
  stop-Progress f e files s s1 r (stopped e' extra _ same ran one) bad =
      Progress-stop fs f e files extra s s1 same ran one

  migrate_files-Progress :
      (files : List String) (s : Schema)
      → Progress fs files s (migrate_files sql fs files s).0 (migrate_files sql fs files s).1
  unfolding migrate_files
  migrate_files-Progress [] s = Progress-nil fs [] s none (λ e. refl)
  migrate_files-Progress (f ∷ files) s =
      let s1 = (migrate_file sql fs f s).0 in
      elim (Option-cases (migrate_file sql fs f s).1) [
        | inl fine ↦ rw (migrate_files_next f files s fine) (
            next-Progress f files s s1 _ _ _ (migrate_file-Round sql fs laws f s) fine
              (migrate_files-Progress files s1))
        | inr (e, bad) ↦
            rw (migrate_files_stop f files s e bad)
              (stop-Progress f e files s s1 _ (migrate_file-Round sql fs laws f s) bad)
      ]

  run_migrations_loop :
      (entries : List Entry) (s : Schema)
      → fs.read_dir ≡ ok entries
      → (sql.create_table s).1 ≡ none
      → run_migrations sql fs s
        ≡ migrate_files sql fs (sort_strings (sql_files entries)) (sql.create_table s).0
  unfolding run_migrations
  run_migrations_loop entries s dir made = rw (made, dir, run_migrations) refl

  -- However `RunMigrations` ends, over a directory that can be read, where the statement for
  -- schema_migrations succeeds: the files, in the order of their names, are executed and recorded
  -- up to some point, those recorded before left out; at most one more script has been executed.
  -- Without an error every file has been recorded and every script executed once.
  pub run_migrations-Progress :
      (entries : List Entry) (s : Schema)
      → fs.read_dir ≡ ok entries
      → (sql.create_table s).1 ≡ none
      → Progress fs
          (sort_strings (sql_files entries))
          s
          (run_migrations sql fs s).0
          (run_migrations sql fs s).1
  run_migrations-Progress entries s dir made =
      let (applied, executed) = laws.create_keeps s in
      let files = sort_strings (sql_files entries) in
      let s1 = (sql.create_table s).0 in
      rw (run_migrations_loop entries s dir made)
        (Progress-start fs files s s1 _ _ applied executed (migrate_files-Progress files s1))
