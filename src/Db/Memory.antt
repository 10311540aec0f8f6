-- ===== src/Db/Memory.antt =====
-- A database in memory that keeps `IsMigrationSql`, and a directory with two scripts.
use text.Mathlib.Text.{◌==◌}
use uber.Base.{
  none, some, true, false, List, [], ◌∷◌, ◌++◌, refl, inl, inr, arith, Bool-cases, ok,
  if◌then◌else◌,
}
use uber.Db.Files.{Entry}
use uber.Db.Migrations.{Schema, MigrationSql, IsMigrationSql, Fs, contains}

abbrev pub memory : MigrationSql
memory = record {
  create_table = λ s. (s, none);
  query_count = λ f s. ok (if contains f s.applied then 1 else 0);
  exec_script = λ c s. (record s { executed = s.executed ++ c ∷ [] }, none);
  exec_record = λ f s.
      if contains f s.applied
      then (s, some "duplicate key")
      else (record s { applied = s.applied ++ f ∷ [] }, none);
}

pub memory-IsMigrationSql : IsMigrationSql memory
memory-IsMigrationSql = record {
  create_keeps = λ s. (refl, refl);
  count_ok = λ f s n e. ground arith;
  script_keeps = λ c s. refl;
  script_atomic = λ c s. inr refl;
  script_ok = λ c s e. refl;
  record_keeps = λ f s. ground arith;
  record_atomic = λ f s. elim (Bool-cases (contains f s.applied)) [
    | inl old ↦ inl (rw old refl)
    | inr new ↦ inr (rw new refl, new)
  ];
  record_ok = λ f s e. elim (Bool-cases (contains f s.applied)) [
    | inl old ↦ absurd (ground (arith, old))
    | inr new ↦ (rw new refl, new)
  ];
}

abbrev pub directory : List Entry
directory =
    record { name = "embed.go"; is_dir = false }
    ∷ record { name = "V2_create_drivers.sql"; is_dir = false }
    ∷ record { name = "V1_create_users.sql"; is_dir = false }
    ∷ record { name = "old.sql"; is_dir = true }
    ∷ []

abbrev pub files : Fs
files = record {
  read_dir = ok directory;
  read_file = λ f. if f == "V1_create_users.sql" then ok "users" else ok "drivers";
}

abbrev pub fresh : Schema
fresh = record { applied = []; executed = []; hidden = 0 }

abbrev pub migrated : Schema
migrated = record {
  applied = "V1_create_users.sql" ∷ "V2_create_drivers.sql" ∷ [];
  executed = "users" ∷ "drivers" ∷ [];
  hidden = 0;
}
