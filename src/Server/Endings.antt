-- ===== src/Server/Endings.antt =====
-- How `main` (ride-service/cmd/main.go) ends.
use uber.Base.{
  String, Option, none, some, List, [], ◌∷◌, ◌++◌, ◌≡◌, ◌⊎◌, refl, sym, subst, ap, inl, inr, arith,
  All, Option-cases,
}
use uber.Db.Migrations.{IsMigrationSql}
use uber.Server.Startup.{Outside, Machine, start_up}
use uber.Server.Started.{IsReady, start_up-IsReady}
use uber.Server.Lifetime.{
  Wakeup, listener_returns, signal, shutdown_server, cancel_context, cancel_shutdown, close_redis,
  close_database, Ending, died, stopped, shut_down, wait_for, main,
}

-- Nothing that ends the wait.
abbrev pub IsQuiet : Wakeup → Type 0
IsQuiet w = w ≡ listener_returns none

-- The first event that ends the wait.
pub record IsDecided (wakeups : List Wakeup) (w : Wakeup) : Type 0 where
  pub before : List Wakeup
  pub after : List Wakeup
  pub split : wakeups ≡ before ++ (w ∷ after)
  pub quiet : All IsQuiet before

-- What the events have decided.
abbrev pub Decided : List Wakeup → Option Ending → Type 0
Decided wakeups none = All IsQuiet wakeups
Decided wakeups (some (died e)) = IsDecided wakeups (listener_returns (some e))
Decided wakeups (some (stopped cleanups)) =
    IsDecided wakeups signal
    × (cleanups
        ≡ shutdown_server 10
          ∷ cancel_context
          ∷ cancel_shutdown
          ∷ close_redis
          ∷ close_database
          ∷ cancel_context
          ∷ [])

IsDecided-now : (w : Wakeup) (rest : List Wakeup) → IsDecided (w ∷ rest) w
IsDecided-now w rest = record { before = []; after = rest; split = refl; quiet = tt }

IsDecided-later :
    (rest : List Wakeup) (w : Wakeup)
    → IsDecided rest w
    → IsDecided (listener_returns none ∷ rest) w
IsDecided-later rest w d = record {
  before = listener_returns none ∷ d.before;
  after = d.after;
  split = ap (λ ws. listener_returns none ∷ ws) d.split;
  quiet = (refl, d.quiet);
}

Decided-later :
    (rest : List Wakeup) (e : Option Ending)
    → Decided rest e
    → Decided (listener_returns none ∷ rest) e
Decided-later rest none d = (refl, d)
Decided-later rest (some (died e)) d = IsDecided-later rest _ d
Decided-later rest (some (stopped cs)) (d, same) = (IsDecided-later rest _ d, same)

wait_for-Decided : (wakeups : List Wakeup) → Decided wakeups (wait_for wakeups)
unfolding wait_for shut_down
wait_for-Decided [] = tt
wait_for-Decided (listener_returns none ∷ rest) =
    Decided-later rest (wait_for rest) (wait_for-Decided rest)
wait_for-Decided (listener_returns (some e) ∷ rest) = IsDecided-now _ rest
wait_for-Decided (signal ∷ rest) = (IsDecided-now _ rest, refl)

module _ {Pool Rdb Topics : Type 0} (o : Outside Pool Rdb Topics)
    (laws : (pool : Pool) → IsMigrationSql (o.sql pool)) where
  -- With a PostgreSQL that keeps `IsMigrationSql`, whatever happens to the process: either a step
  -- of the start-up fails and `main` dies with its text; or everything is ready, and the first
  -- event that counts decides. An error of the listener kills the process with that text; a signal
  -- gives the server ten seconds, stops the consumers, and then closes Redis before the database;
  -- with neither, `main` waits on.
  pub main_lem :
      (m : Machine Topics) (wakeups : List Wakeup)
      → ((e : String) × ((start_up o m).fatal ≡ some e) × ((main o m wakeups).1 ≡ some (died e)))
        ⊎ (IsReady o m (main o m wakeups).0 × Decided wakeups (main o m wakeups).1)
  main_lem m wakeups = elim (Option-cases (start_up o m).fatal) [
    | inr (e, failed) ↦ inl (e, failed, unfold main in ground (arith, failed))
    | inl fine ↦
        let waits : (main o m wakeups).1 ≡ wait_for wakeups = unfold main in ground (arith, fine) in
        inr (
          unfold main in start_up-IsReady o laws m fine,
          subst (Decided wakeups) (sym waits) (wait_for-Decided wakeups),
        )
  ]
