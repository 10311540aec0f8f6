-- ===== src/Server/Lifetime.antt =====
-- `main` of ride-service/cmd/main.go from its first step to its last: the start-up, the listener's
-- goroutine beside the wait for a signal, and the calls that were deferred.
use Prim.Native.String.{◌++◌ as ◌<>◌}
use uber.Base.{ℕ, String, Option, none, some, List, [], ◌∷◌, ◌++◌}
use uber.Server.Startup.{Outside, Machine, env, start_up}

-- What happens while `main` waits: `ListenAndServe` returns, with no error or `ErrServerClosed` as
-- `none`; or SIGINT or SIGTERM arrives.
pub data Wakeup : Type 0 where
  listener_returns : (err : Option String) → Wakeup
  signal : Wakeup

pub data Cleanup : Type 0 where
  shutdown_server : (seconds : ℕ) → Cleanup
  cancel_context : Cleanup
  cancel_shutdown : Cleanup
  close_redis : Cleanup
  close_database : Cleanup

-- `log.Fatal` exits at once, and runs no deferred call.
pub data Ending : Type 0 where
  died : String → Ending
  stopped : List Cleanup → Ending

-- The calls of a function body, and then those that it has deferred, the last of them first.
abbrev pub returning : (calls deferred : List Cleanup) → List Cleanup
returning calls [] = calls
returning calls (c ∷ deferred) = returning calls deferred ++ c ∷ []

-- Part 10, behind the wait.
unfoldable pub shut_down : List Cleanup
shut_down =
    returning (shutdown_server 10 ∷ cancel_context ∷ [])
      (cancel_context ∷ close_database ∷ close_redis ∷ cancel_shutdown ∷ [])

-- Parts 9 and 10; `none` where `main` still waits.
unfoldable pub wait_for : List Wakeup → Option Ending
unfolding shut_down
wait_for [] = none
wait_for (listener_returns none ∷ rest) = wait_for rest
wait_for (listener_returns (some e) ∷ rest) = some (died e)
wait_for (signal ∷ rest) = some (stopped shut_down)

module _ {Pool Rdb Topics : Type 0} (o : Outside Pool Rdb Topics) where
  abbrev pub listen_addr : String
  listen_addr = ":" <> env o "PORT" "8080"

  unfoldable pub main : Machine Topics → List Wakeup → Machine Topics × Option Ending
  unfolding wait_for
  main m wakeups =
      let s = start_up o m in
      (s.machine, elim s.fatal [ some e ↦ some (died e) | none ↦ wait_for wakeups ])
