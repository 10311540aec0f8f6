-- ===== src/Kafka/Core.antt =====
-- ride-service/pkg/kafka/client.go: publishing to a topic and the loop of a subscription. What a
-- broker does with a write is a parameter.
use uber.Base.{String, Option, none, some, List, [], ◌∷◌, ◌++◌, ◌≡◌, ℕ, zero, suc, Result, ok, err}
use uber.Events.{Bytes}

abbrev pub topic_ride_requested : String
topic_ride_requested = "ride.requested"

abbrev pub topic_driver_assigned : String
topic_driver_assigned = "driver.assigned"

abbrev pub topic_trip_completed : String
topic_trip_completed = "trip.completed"

-- A message as it stands in a topic.
pub record Message : Type 0 where
  pub topic : String
  pub key : String
  pub value : Bytes

-- Everything that the brokers hold, oldest first.
abbrev pub Log : Type 0
Log = List Message

pub record Broker : Type 0 where
  pub write_messages : Message → Log → Log × Option String

abbrev pub replicate {ℓ} : {A : Type ℓ} → ℕ → A → List A
replicate zero a = []
replicate (suc n) a = a ∷ replicate n a

-- kafka-go's writer retries, so a write may be stored any number of times; one that returns no
-- error has been stored.
pub record IsBroker (b : Broker) : Type 0 where
  pub stored :
      (m : Message) (log : Log) → (n : ℕ) × ((b.write_messages m log).0 ≡ log ++ replicate n m)
  pub acknowledged :
      (m : Message) (log : Log)
      → (b.write_messages m log).1 ≡ none
      → (n : ℕ) × ((b.write_messages m log).0 ≡ log ++ replicate (suc n) m)

-- `Publish`, given the bytes or the error of `json.Marshal`.
unfoldable pub publish : Broker → String → String → Result Bytes → Log → Log × Option String
publish b topic key (err e) log = (log, some e)
publish b topic key (ok bytes) log =
    b.write_messages (record { topic = topic; key = key; value = bytes }) log

-- What one call of `ReadMessage` returns: a message, whose offset is committed by that call; an
-- error while the context is live; or the error of a cancelled context.
pub data Read : Type 0 where
  message : Bytes → Read
  read_error : String → Read
  cancelled : Read

-- A handler changes the state `S` that it closes over and returns an `error`.
abbrev pub Handler : Type 0 → Type 0
Handler S = Bytes → S → S × Option String

-- The goroutine of `Subscribe` over the results of its reads. After the last of them it waits in
-- `ReadMessage`. A handler's error is logged and nothing else.
unfoldable pub consume : {S : Type 0} → Handler S → List Read → S → S
consume handler [] s = s
consume handler (message value ∷ rest) s = let (s', _) = handler value s in consume handler rest s'
consume handler (read_error e ∷ rest) s = consume handler rest s
consume handler (cancelled ∷ rest) s = s

-- The values that the goroutine hands to its handler.
abbrev pub delivered : List Read → List Bytes
delivered [] = []
delivered (message value ∷ rest) = value ∷ delivered rest
delivered (read_error e ∷ rest) = delivered rest
delivered (cancelled ∷ rest) = []
