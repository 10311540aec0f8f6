-- ===== src/Db/Rounds.antt =====
-- How one round of the loop of `RunMigrations` ends.
use uber.Base.{
  ◌≤◌, String, Option, none, some, true, false, List, [], ◌∷◌, ◌++◌, ◌≡◌, refl, inl, inr, arith,
  Result-cases, Option-cases, Bool-cases, ok, err, ap, sym, ◌∙◌, append-nil, ltb, length,
}
use Prim.Native.String.{◌++◌ as ◌<>◌}
use uber.Db.Migrations.{
  Schema, MigrationSql, IsMigrationSql, Fs, contains, counted, apply_file, migrate_file,
}

module _ (sql : MigrationSql) (fs : Fs) (laws : IsMigrationSql sql) where
  -- How a round ends: the file was recorded before; or it is executed and recorded now, with or
  -- without an error; or there is an error, it is not recorded, and may have been executed.
  pub data Round (f : String) (s s' : Schema) (failed : Option String) : Type 0 where
    skipped : contains f s.applied ≡ true → s' ≡ s → failed ≡ none → Round f s s' failed
    recorded_now :
        (c : String)
        → contains f s.applied ≡ false
        → fs.read_file f ≡ ok c
        → s'.applied ≡ s.applied ++ f ∷ []
        → s'.executed ≡ s.executed ++ c ∷ []
        → Round f s s' failed
    stopped :
        (e : String) (extra : List String)
        → failed ≡ some e
        → s'.applied ≡ s.applied
        → s'.executed ≡ s.executed ++ extra
        → length extra ≤ 1
        → Round f s s' failed

  -- The four ends of `apply_file`.
  apply_file_unread :
      (f e : String) (s : Schema)
      → fs.read_file f ≡ err e
      → apply_file sql fs f s ≡ (s, some ("read " <> (f <> (": " <> e))))
  unfolding apply_file
  apply_file_unread f e s bad = rw (bad, apply_file) refl

  apply_file_failed :
      (f c e : String) (s : Schema)
      → fs.read_file f ≡ ok c
      → (sql.exec_script c s).1 ≡ some e
      → apply_file sql fs f s ≡ ((sql.exec_script c s).0, some ("exec " <> (f <> (": " <> e))))
  unfolding apply_file
  apply_file_failed f c e s read bad = rw (read, bad, apply_file) refl

  apply_file_unrecorded :
      (f c e : String) (s : Schema)
      → fs.read_file f ≡ ok c
      → (sql.exec_script c s).1 ≡ none
      → (sql.exec_record f (sql.exec_script c s).0).1 ≡ some e
      → apply_file sql fs f s
        ≡ ((sql.exec_record f (sql.exec_script c s).0).0, some ("record " <> (f <> (": " <> e))))
  unfolding apply_file
  apply_file_unrecorded f c e s read fine bad = rw (read, fine, bad, apply_file) refl

  apply_file_done :
      (f c : String) (s : Schema)
      → fs.read_file f ≡ ok c
      → (sql.exec_script c s).1 ≡ none
      → (sql.exec_record f (sql.exec_script c s).0).1 ≡ none
      → apply_file sql fs f s ≡ ((sql.exec_record f (sql.exec_script c s).0).0, none)
  unfolding apply_file
  apply_file_done f c s read fine good = rw (read, fine, good, apply_file) refl

  apply_file-Round :
      (f : String) (s : Schema) → Round f s (apply_file sql fs f s).0 (apply_file sql fs f s).1
  apply_file-Round f s = elim (Result-cases (fs.read_file f)) [
    | inr (e, bad) ↦
        rw (apply_file_unread f e s bad) (stopped _ [] refl refl (sym (append-nil _)) (omega arith))
    | inl (c, read) ↦
        let s' = (sql.exec_script c s).0 in
        let keeps = laws.script_keeps c s in
        elim (Option-cases (sql.exec_script c s).1) [
          | inr (e, bad) ↦ rw (apply_file_failed f c e s read bad) (elim (laws.script_atomic c s) [
            | inl same ↦ stopped _ [] refl keeps (same ∙ sym (append-nil _)) (omega arith)
            | inr more ↦ stopped _ (c ∷ []) refl keeps more (omega arith)
          ])
          | inl fine ↦
              let ran = laws.record_keeps f s' ∙ laws.script_ok c s fine in
              elim (Option-cases (sql.exec_record f s').1) [
                | inr (e, bad) ↦
                    rw (apply_file_unrecorded f c e s read fine bad)
                      (elim (laws.record_atomic f s') [
                        | inl same ↦ stopped _ (c ∷ []) refl (same ∙ keeps) ran (omega arith)
                        | inr (more, new) ↦
                            recorded_now c (ap (contains f) (sym keeps) ∙ new) read
                              (more ∙ ap (λ ap. ap ++ f ∷ []) keeps) ran
                      ])
                | inl good ↦
                    let (more, new) = laws.record_ok f s' good in
                    rw (apply_file_done f c s read fine good) (
                      recorded_now c (ap (contains f) (sym keeps) ∙ new) read
                        (more ∙ ap (λ ap. ap ++ f ∷ []) keeps) ran)
              ]
        ]
  ]

  counted-contains :
      (f : String) (s : Schema)
      → ltb 0 (counted (sql.query_count f s)) ≡ true
      → contains f s.applied ≡ true
  counted-contains f s h = elim (Result-cases (sql.query_count f s)) [
    | inl (n, counts) ↦ sym (laws.count_ok f s n counts) ∙ (rw counts at h)
    | inr (e, bad) ↦ ground (arith, bad)
  ]

  pub migrate_file-Round :
      (f : String) (s : Schema) → Round f s (migrate_file sql fs f s).0 (migrate_file sql fs f s).1
  unfolding migrate_file
  migrate_file-Round f s = elim (Bool-cases (ltb 0 (counted (sql.query_count f s)))) [
    | inl old ↦ rw (old, migrate_file) (skipped (counted-contains f s old) refl refl)
    | inr new ↦ rw (new, migrate_file) (apply_file-Round f s)
  ]
