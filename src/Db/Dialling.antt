-- ===== src/Db/Dialling.antt =====
-- How `Connect` ends.

use uber.Base.{
  ℕ, zero, suc, ◌+◌, ◌*◌, ◌<◌, String, Option, none, some, ◌≡◌, refl, ◌⊎◌, inl, inr, arith, Result,
  Result-cases, Option-cases, ok, err, ap, length, first_round, IsFirst, first_round_cases,
}
use uber.Db.Connect.{connect_from, connect}

module _ {Pool : Type 0} (new_pool : ℕ → Result Pool) (ping : ℕ → Pool → Option String) where
  -- The pool of a round, if it was opened and answered.
  abbrev pub answers : ℕ → Option Pool
  answers i = elim (new_pool i) [
    | err e ↦ none
    | ok pool ↦ elim (ping i pool) [ none ↦ some pool | some e ↦ none ]
  ]

  -- `connect_from` gives the pool of the first round that answers, and has slept two seconds after
  -- each round before it.
  connect_from_found :
      (n i : ℕ) (last : Option String) (k : ℕ) (pool : Pool)
      → first_round answers n i ≡ some (k, pool)
      → ((connect_from new_pool ping n i last).result ≡ ok pool)
        × ((connect_from new_pool ping n i last).slept + 2 * i ≡ 2 * k)
  unfolding connect_from first_round
  connect_from_found zero i last k pool e = absurd (ground arith)
  connect_from_found (suc n) i last k pool e = elim (Result-cases (new_pool i)) [
    | inr (x, failed) ↦ ground (arith, failed, connect_from_found n (suc i) (some x) k pool)
    | inl (p, opened) ↦ elim (Option-cases (ping i p)) [
      | inl good ↦ ground (arith, opened, good)
      | inr (x, bad) ↦ ground (arith, opened, bad, connect_from_found n (suc i) none k pool)
    ]
  ]

  -- If no round answers, all of them slept, and the error is that of the last `New`.
  connect_from_missed :
      (n i : ℕ) (last : Option String)
      → first_round answers n i ≡ none
      → ((e : String) × ((connect_from new_pool ping n i last).result ≡ err e))
        × ((connect_from new_pool ping n i last).slept ≡ 2 * n)
  unfolding connect_from first_round
  connect_from_missed zero i last e = ((_, refl), refl)
  connect_from_missed (suc n) i last e = elim (Result-cases (new_pool i)) [
    | inr (x, failed) ↦ ground (arith, failed, connect_from_missed n (suc i) (some x))
    | inl (p, opened) ↦ elim (Option-cases (ping i p)) [
      | inl good ↦ ground (arith, opened, good)
      | inr (x, bad) ↦ ground (arith, opened, bad, connect_from_missed n (suc i) none)
    ]
  ]

  -- `Connect` ends: with the pool of the first of its 30 rounds in which one is opened and answers,
  -- after two seconds for each round before it; or, where no round does, with an error after 60.
  pub connect_lem :
      ((k : ℕ) × (pool : Pool) × (k < 30)
        × IsFirst answers 0 k pool
        × ((connect new_pool ping).result ≡ ok pool)
        × ((connect new_pool ping).slept ≡ 2 * k))
      ⊎ (((j : ℕ) → j < 30 → answers j ≡ none)
          × ((e : String) × ((connect new_pool ping).result ≡ err e))
          × ((connect new_pool ping).slept ≡ 60))
  unfolding connect
  connect_lem = elim (first_round_cases answers 30 0) [
    | inl (k, pool, bound, first, same) ↦
        let (result, slept) = connect_from_found 30 0 none k pool same in
        inl (k, pool, omega arith, first, result, omega arith)
    | inr (all, same) ↦
        let (result, slept) = connect_from_missed 30 0 none same in
        inr (λ j low. all j (omega arith) (omega arith), result, slept)
  ]

  connect_from_drops :
      (n i : ℕ)
      → ((j : ℕ) → (pool : Pool) × (e : String) × (new_pool j ≡ ok pool) × (ping j pool ≡ some e))
      → ((connect_from new_pool ping n i none).result
          ≡ err "postgres: failed after 30 attempts: %!w(<nil>)")
        × (length (connect_from new_pool ping n i none).dropped ≡ n)
  unfolding connect_from
  connect_from_drops zero i deaf = (refl, refl)
  connect_from_drops (suc n) i deaf =
      let (pool, e, opened, bad) = deaf i in
      let (result, dropped) = connect_from_drops n (suc i) deaf in
      (rw (opened, bad, connect_from) result, rw (opened, bad, connect_from) (ap suc dropped))

  -- Where in every round a pool is opened and the server does not answer, `Connect` fails without
  -- the server's error, and leaves 30 pools open.
  pub connect_drops :
      ((j : ℕ) → (pool : Pool) × (e : String) × (new_pool j ≡ ok pool) × (ping j pool ≡ some e))
      → ((connect new_pool ping).result ≡ err "postgres: failed after 30 attempts: %!w(<nil>)")
        × (length (connect new_pool ping).dropped ≡ 30)
  unfolding connect
  connect_drops deaf = connect_from_drops 30 0 deaf
