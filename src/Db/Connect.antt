-- ===== src/Db/Connect.antt =====
-- `Connect` of ride-service/pkg/db/postgres.go. What `pgxpool.New` and `Ping` answer in round `i`
-- is a parameter.
use Prim.Native.String
use uber.Base.{ℕ, zero, suc, String, Option, none, some, List, [], ◌∷◌, Result, ok, err}

-- What a round of the loop has left behind: the seconds slept, and the pools that were opened and
-- are not closed.
pub record Dialled (Pool : Type 0) : Type 0 where
  pub slept : ℕ
  pub dropped : List Pool
  pub result : Result Pool

-- `%w` of an `error`; nil has no text of its own.
abbrev pub wrapped : Option String → String
wrapped none = "%!w(<nil>)"
wrapped (some e) = e

module _ {Pool : Type 0} (new_pool : ℕ → Result Pool) (ping : ℕ → Pool → Option String) where
  -- time.Sleep(2 * time.Second)
  abbrev sleep_two : Dialled Pool → Dialled Pool
  sleep_two r = record r { slept = suc (suc r.slept) }

  -- The rounds from `i` on, `left` of them, with the variable `err` as the last round left it.
  unfoldable pub connect_from : (left i : ℕ) → Option String → Dialled Pool
  connect_from zero i last = record {
    slept = 0;
    dropped = [];
    result = err (String.◌++◌ "postgres: failed after 30 attempts: " (wrapped last));
  }
  connect_from (suc left) i last = elim (new_pool i) [
    | err e ↦ sleep_two (connect_from left (suc i) (some e))
    | ok pool ↦ elim (ping i pool) [
      | none ↦ record { slept = 0; dropped = []; result = ok pool }
      | some e ↦
          let rest = sleep_two (connect_from left (suc i) none) in
          record rest { dropped = pool ∷ rest.dropped }
    ]
  ]

  unfoldable pub connect : Dialled Pool
  unfolding connect_from
  connect = connect_from 30 0 none
