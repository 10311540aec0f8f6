-- ===== src/Kafka/Topics.antt =====
-- `EnsureTopics` of ride-service/pkg/kafka/client.go. What dialling the first broker answers in
-- each attempt, and what `CreateTopics` does to the brokers' topics, are parameters.
use uber.Base.{
  ℕ, zero, suc, ◌+◌, ◌*◌, ◌≤◌, ◌<◌, String, Option, none, some, List, [], ◌∷◌, ◌≡◌, refl, ◌⊎◌, inl,
  inr, arith, Option-cases, first_round, IsFirst, first_round_cases,
}

pub record TopicConfig : Type 0 where
  pub topic : String
  pub num_partitions : ℕ
  pub replication_factor : ℕ

-- The loop over `topics`.
abbrev pub configs : List String → List TopicConfig
configs [] = []
configs (t ∷ ts) = record { topic = t; num_partitions = 3; replication_factor = 1 } ∷ configs ts

pub record Ensured (Topics : Type 0) : Type 0 where
  pub slept : ℕ
  pub topics : Topics
  pub result : Option String

module _ {Topics : Type 0} (dial : ℕ → Option String)
    (create_topics : List TopicConfig → Topics → Topics × Option String) where
  -- The attempts from `attempt` on, `left` of them; time.Sleep(3 * time.Second) after each that
  -- failed. An error of `CreateTopics` is logged.
  unfoldable pub ensure_from : (left attempt : ℕ) → List String → Topics → Ensured Topics
  ensure_from zero attempt names s = record {
    slept = 0;
    topics = s;
    result = some "kafka: could not connect after 20 attempts";
  }
  ensure_from (suc left) attempt names s = elim (dial attempt) [
    | some e ↦
        let rest = ensure_from left (suc attempt) names s in
        record rest { slept = suc (suc (suc rest.slept)) }
    | none ↦ record { slept = 0; topics = (create_topics (configs names) s).0; result = none }
  ]

  unfoldable pub ensure_topics : List String → Topics → Ensured Topics
  unfolding ensure_from
  ensure_topics names s = ensure_from 20 1 names s

  abbrev pub dialled : ℕ → Option (Unit {0})
  dialled i = elim (dial i) [ none ↦ some tt | some e ↦ none ]

  ensure_from_found :
      (n i : ℕ) (names : List String) (s : Topics) (k : ℕ) (u : Unit {0})
      → first_round dialled n i ≡ some (k, u)
      → ((ensure_from n i names s).result ≡ none)
        × ((ensure_from n i names s).topics ≡ (create_topics (configs names) s).0)
        × ((ensure_from n i names s).slept + 3 * i ≡ 3 * k)
  unfolding ensure_from first_round
  ensure_from_found zero i names s k u e = absurd (ground arith)
  ensure_from_found (suc n) i names s k u e = elim (Option-cases (dial i)) [
    | inl good ↦ ground (arith, good)
    | inr (x, bad) ↦ ground (arith, bad, ensure_from_found n (suc i) names s k u)
  ]

  ensure_from_missed :
      (n i : ℕ) (names : List String) (s : Topics)
      → first_round dialled n i ≡ none
      → ((ensure_from n i names s).result ≡ some "kafka: could not connect after 20 attempts")
        × ((ensure_from n i names s).topics ≡ s)
        × ((ensure_from n i names s).slept ≡ 3 * n)
  unfolding ensure_from first_round
  ensure_from_missed zero i names s e = (refl, refl, refl)
  ensure_from_missed (suc n) i names s e = elim (Option-cases (dial i)) [
    | inl good ↦ ground (arith, good)
    | inr (x, bad) ↦ ground (arith, bad, ensure_from_missed n (suc i) names s)
  ]

  -- `EnsureTopics` ends: at the first of its attempts 1 to 20 that reaches the broker, with no
  -- error whatever `CreateTopics` answers, which it has called once for all topics, after three
  -- seconds for each attempt before; or, where none does, with its error after 60, and no topic is
  -- touched.
  pub ensure_topics_lem :
      (names : List String) (s : Topics)
      → let out = ensure_topics names s in
        ((k : ℕ) × (k < 21)
          × IsFirst dialled 1 k tt
          × (out.result ≡ none)
          × (out.topics ≡ (create_topics (configs names) s).0)
          × (out.slept + 3 ≡ 3 * k))
        ⊎ (((j : ℕ) → 1 ≤ j → j < 21 → dialled j ≡ none)
            × (out.result ≡ some "kafka: could not connect after 20 attempts")
            × (out.topics ≡ s)
            × (out.slept ≡ 60))
  unfolding ensure_topics
  ensure_topics_lem names s = elim (first_round_cases dialled 20 1) [
    | inl (k, u, bound, (low, found, before), same) ↦
        let (result, topics, slept) = ensure_from_found 20 1 names s k u same in
        inl (k, omega arith, (low, found, before), result, topics, omega arith)
    | inr (all, same) ↦
        let (result, topics, slept) = ensure_from_missed 20 1 names s same in
        inr (λ j low high. all j low (omega arith), result, topics, slept)
  ]
