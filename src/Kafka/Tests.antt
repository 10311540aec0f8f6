-- ===== src/Kafka/Tests.antt =====
-- Creating topics at brokers that answer in the second attempt, and that keep names.
use uber.Base.{
  ℕ, ◌+◌, ◌*◌, ◌≤◌, ◌<◌, String, Option, none, some, List, [], ◌∷◌, ◌≡◌, refl, ◌⊎◌, eqb,
  if◌then◌else◌, IsFirst,
}
use uber.Kafka.Topics.{TopicConfig, configs, ensure_from, ensure_topics, dialled, ensure_topics_lem}

abbrev second : ℕ → Option String
second i = if eqb i 2 then none else some "connection refused"

-- The error does not keep the topics from being made.
abbrev create : List TopicConfig → List TopicConfig → List TopicConfig × Option String
create new old = (new, some "topic already exists")

abbrev names : List String
names = "ride.requested" ∷ "trip.completed" ∷ []

ensure_topics_lem_example :
    ((k : ℕ) × (k < 21)
      × IsFirst (dialled second create) 1 k tt
      × ((ensure_topics second create names []).result ≡ none)
      × ((ensure_topics second create names []).topics ≡ configs names)
      × ((ensure_topics second create names []).slept + 3 ≡ 3 * k))
    ⊎ (((j : ℕ) → 1 ≤ j → j < 21 → dialled second create j ≡ none)
        × ((ensure_topics second create names []).result
            ≡ some "kafka: could not connect after 20 attempts")
        × ((ensure_topics second create names []).topics ≡ [])
        × ((ensure_topics second create names []).slept ≡ 60))
ensure_topics_lem_example = ensure_topics_lem second create names []

ensures :
    ensure_topics second create names []
    ≡ record { slept = 3; topics = configs names; result = none }
unfolding ensure_topics ensure_from
ensures = refl
