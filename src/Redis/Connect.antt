-- ===== src/Redis/Connect.antt =====
-- `NewClient` of ride-service/pkg/redis/client.go: its loop, given what `Ping` answers in round
-- `i`.
use uber.Base.{
  ℕ, zero, suc, ◌+◌, ◌*◌, ◌<◌, String, Option, none, some, ◌≡◌, refl, ◌⊎◌, inl, inr, arith, Result,
  Option-cases, ok, err, first_round, IsFirst, first_round_cases,
}

pub record Connected (Client : Type 0) : Type 0 where
  pub slept : ℕ
  pub result : Result Client

module _ {Client : Type 0} (client : Client) (ping : ℕ → Option String) where
  -- The rounds from `i` on, `left` of them; time.Sleep(2 * time.Second) after each that failed.
  unfoldable pub new_client_from : (left i : ℕ) → Connected Client
  new_client_from zero i = record {
    slept = 0;
    result = err "redis: failed to connect after 20 attempts";
  }
  new_client_from (suc left) i = elim (ping i) [
    | none ↦ record { slept = 0; result = ok client }
    | some e ↦
        let rest = new_client_from left (suc i) in record rest { slept = suc (suc rest.slept) }
  ]

  unfoldable pub new_client : Connected Client
  unfolding new_client_from
  new_client = new_client_from 20 0

  abbrev pub pong : ℕ → Option Client
  pong i = elim (ping i) [ none ↦ some client | some e ↦ none ]

  new_client_from_found :
      (n i k : ℕ) (c : Client)
      → first_round pong n i ≡ some (k, c)
      → ((new_client_from n i).result ≡ ok client) × ((new_client_from n i).slept + 2 * i ≡ 2 * k)
  unfolding new_client_from first_round
  new_client_from_found zero i k c e = absurd (ground arith)
  new_client_from_found (suc n) i k c e = elim (Option-cases (ping i)) [
    | inl good ↦ ground (arith, good)
    | inr (x, bad) ↦ ground (arith, bad, new_client_from_found n (suc i) k c)
  ]

  new_client_from_missed :
      (n i : ℕ)
      → first_round pong n i ≡ none
      → ((new_client_from n i).result ≡ err "redis: failed to connect after 20 attempts")
        × ((new_client_from n i).slept ≡ 2 * n)
  unfolding new_client_from first_round
  new_client_from_missed zero i e = (refl, refl)
  new_client_from_missed (suc n) i e = elim (Option-cases (ping i)) [
    | inl good ↦ ground (arith, good)
    | inr (x, bad) ↦ ground (arith, bad, new_client_from_missed n (suc i))
  ]

  -- `NewClient` ends: with the client in the first of its 20 rounds in which Redis answers, after
  -- two seconds for each round before it; or, where it never does, with its error after 40.
  pub new_client_lem :
      ((k : ℕ) × (k < 20)
        × IsFirst pong 0 k client
        × (new_client.result ≡ ok client)
        × (new_client.slept ≡ 2 * k))
      ⊎ (((j : ℕ) → j < 20 → pong j ≡ none)
          × (new_client.result ≡ err "redis: failed to connect after 20 attempts")
          × (new_client.slept ≡ 40))
  unfolding new_client
  new_client_lem = elim (first_round_cases pong 20 0) [
    | inl (k, c, bound, (low, found, before), same) ↦
        let (result, slept) = new_client_from_found 20 0 k c same in
        inl (k, omega arith, (low, ground (arith, found), before), result, omega arith)
    | inr (all, same) ↦
        let (result, slept) = new_client_from_missed 20 0 same in
        inr (λ j low. all j (omega arith) (omega arith), result, slept)
  ]
