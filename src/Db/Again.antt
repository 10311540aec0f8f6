-- ===== src/Db/Again.antt =====
-- `RunMigrations` a second time.
use text.Mathlib.TextEquality.{eq_iff}
use uber.Base.{
  String, Option, none, true, List, [], ◌∷◌, ◌++◌, ◌≡◌, refl, inl, inr, arith, Bool-cases,
  Option-cases, Result-cases, ok, ap, sym, subst, ◌∙◌, All, append-nil, append_assoc,
}
use uber.Db.Files.{Entry, sql_files, sort_strings}
use uber.Db.Migrations.{Schema, MigrationSql, IsMigrationSql, Fs, contains, run_migrations}
use uber.Db.Progress.{Progress, Contents, pending, pending_old, pending_new}
use uber.Db.Applied.{run_migrations-Progress}

contains-append_left :
    (f : String) (xs ys : List String) → contains f xs ≡ true → contains f (xs ++ ys) ≡ true
contains-append_left f [] ys h = ground arith
contains-append_left f (x ∷ xs) ys h = ground (arith, contains-append_left f xs ys)

contains-append_here : (f : String) (xs ys : List String) → contains f (xs ++ f ∷ ys) ≡ true
contains-append_here f [] ys = ground (arith, eq_iff f f)
contains-append_here f (x ∷ xs) ys = ground (arith, contains-append_here f xs ys)

-- Once the pending files are recorded, all files are.
pending-All :
    (files applied : List String)
    → All (λ f. contains f (applied ++ pending files applied) ≡ true) files
pending-All [] applied = tt
pending-All (f ∷ files) applied =
    let covers = λ (p : List String). All (λ g. contains g (applied ++ p) ≡ true) (f ∷ files) in
    elim (Bool-cases (contains f applied)) [
      | inl old ↦
          subst covers (sym (pending_old f files applied old))
            (contains-append_left f applied (pending files applied) old, pending-All files applied)
      | inr new ↦
          let rest = pending files (applied ++ f ∷ []) in
          subst covers (sym (pending_new f files applied new)) (
            contains-append_here f applied rest,
            subst (λ xs. All (λ g. contains g xs ≡ true) files) (append_assoc applied (f ∷ []) rest)
                (pending-All files (applied ++ f ∷ [])),
          )
    ]

pending-nil :
    (files applied : List String)
    → All (λ f. contains f applied ≡ true) files
    → pending files applied ≡ []
pending-nil [] applied h = refl
pending-nil (f ∷ files) applied (h, hs) =
    pending_old f files applied h ∙ pending-nil files applied hs

Contents-nil : (fs : Fs) (texts : List String) → Contents fs [] texts → texts ≡ []
Contents-nil fs [] h = refl
Contents-nil fs (c ∷ texts) h = absurd h

-- A run over files of which none is pending, without an error, changes nothing.
Progress-settled :
    (fs : Fs) (files : List String) (s s' : Schema) (failed : Option String)
    → failed ≡ none
    → pending files s.applied ≡ []
    → Progress fs files s s' failed
    → (s'.applied ≡ s.applied) × (s'.executed ≡ s.executed)
Progress-settled fs files s s' failed fine settled p =
    let (rest, extra) = p.complete fine in
    let done : p.done ≡ [] =
      sym (append-nil p.done) ∙ ap (λ xs. p.done ++ xs) (sym rest) ∙ sym p.split ∙ settled in
    let texts : p.texts ≡ [] = Contents-nil fs p.texts (rw done at p.contents) in
    (
      p.recorded ∙ ap (λ xs. s.applied ++ xs) done ∙ append-nil s.applied,
      p.ran ∙ ap (λ xs. s.executed ++ xs) (rw (texts, extra) refl) ∙ append-nil s.executed,
    )

-- Without an error the directory was read and the table was there.
pub run_migrations_ok :
    (sql : MigrationSql) (fs : Fs) (s : Schema)
    → (run_migrations sql fs s).1 ≡ none
    → ((sql.create_table s).1 ≡ none) × ((entries : List Entry) × (fs.read_dir ≡ ok entries))
unfolding run_migrations
run_migrations_ok sql fs s fine = elim (Option-cases (sql.create_table s).1) [
  | inr (e, failed) ↦ absurd (ground (arith, failed))
  | inl made ↦ elim (Result-cases fs.read_dir) [
    | inl (entries, dir) ↦ (made, (entries, dir))
    | inr (e, bad) ↦ absurd (ground (arith, made, bad))
  ]
]

-- Without an error all that was pending is recorded.
applied-run_migrations :
    (sql : MigrationSql) (fs : Fs) (laws : IsMigrationSql sql) (entries : List Entry) (s : Schema)
    → fs.read_dir ≡ ok entries
    → (sql.create_table s).1 ≡ none
    → (run_migrations sql fs s).1 ≡ none
    → (run_migrations sql fs s).0.applied
      ≡ s.applied ++ pending (sort_strings (sql_files entries)) s.applied
applied-run_migrations sql fs laws entries s dir made fine =
    let p = run_migrations-Progress sql fs laws entries s dir made in
    let (rest, _) = p.complete fine in
    p.recorded
    ∙ ap (λ xs. s.applied ++ xs)
        (sym (append-nil p.done) ∙ ap (λ xs. p.done ++ xs) (sym rest) ∙ sym p.split)

-- Without an error every script of the directory is recorded.
pub run_migrations-All :
    (sql : MigrationSql) (fs : Fs) (laws : IsMigrationSql sql) (entries : List Entry) (s : Schema)
    → fs.read_dir ≡ ok entries
    → (sql.create_table s).1 ≡ none
    → (run_migrations sql fs s).1 ≡ none
    → All
        (λ f. contains f (run_migrations sql fs s).0.applied ≡ true)
        (sort_strings (sql_files entries))
run_migrations-All sql fs laws entries s dir made fine =
    rw (applied-run_migrations sql fs laws entries s dir made fine)
      (pending-All (sort_strings (sql_files entries)) s.applied)

-- A second `RunMigrations` on what one without an error has left, over the same directory, executes
-- and records nothing if it ends without an error too.
pub run_migrations-run_migrations :
    (sql : MigrationSql) (fs : Fs) (laws : IsMigrationSql sql) (entries : List Entry) (s : Schema)
    → fs.read_dir ≡ ok entries
    → (sql.create_table s).1 ≡ none
    → (run_migrations sql fs s).1 ≡ none
    → (sql.create_table (run_migrations sql fs s).0).1 ≡ none
    → (run_migrations sql fs (run_migrations sql fs s).0).1 ≡ none
    → ((run_migrations sql fs (run_migrations sql fs s).0).0.applied
        ≡ (run_migrations sql fs s).0.applied)
      × ((run_migrations sql fs (run_migrations sql fs s).0).0.executed
          ≡ (run_migrations sql fs s).0.executed)
run_migrations-run_migrations sql fs laws entries s dir made fine made' fine' =
    let files = sort_strings (sql_files entries) in
    let s' = (run_migrations sql fs s).0 in
    let all = run_migrations-All sql fs laws entries s dir made fine in
    let settled : pending files s'.applied ≡ [] = pending-nil files s'.applied all in
    Progress-settled fs files s' _ _ fine' settled
      (run_migrations-Progress sql fs laws entries s' dir made')
