-- ===== src/Kafka/Delivery.antt =====
-- What `Publish` and `Subscribe` guarantee.
use uber.Base.{String, none, List, [], ◌∷◌, ◌++◌, ◌≡◌, refl, ℕ, suc, Result, ok, err, append-nil}
use uber.Events.{Bytes}
use uber.Kafka.Core.{
  Message, Log, Broker, IsBroker, publish, Read, message, read_error, cancelled, Handler, consume,
  delivered, replicate,
}

-- A handler over a list of values, with its errors ignored.
abbrev pub handle_all : {S : Type 0} → Handler S → List Bytes → S → S
handle_all handler [] s = s
handle_all handler (value ∷ rest) s = handle_all handler rest (handler value s).0

-- Every value that was read before the context was cancelled is handed to the handler exactly
-- once, in the order of the reads. An error of the handler or of a read changes nothing in that: no
-- value is handled again.
pub consume-delivered :
    {S : Type 0} (handler : Handler S) (reads : List Read) (s : S)
    → consume handler reads s ≡ handle_all handler (delivered reads) s
unfolding consume
consume-delivered handler [] s = refl
consume-delivered handler (message value ∷ rest) s =
    consume-delivered handler rest (handler value s).0
consume-delivered handler (read_error e ∷ rest) s = consume-delivered handler rest s
consume-delivered handler (cancelled ∷ rest) s = refl

module _ (b : Broker) (laws : IsBroker b) where
  -- With a broker that keeps `IsBroker`, `Publish` that returns no error: the value was marshalled,
  -- and its message stands in the topic, at least once and behind everything older.
  pub publish_stored :
      (topic key : String) (value : Result Bytes) (log : Log)
      → (publish b topic key value log).1 ≡ none
      → (bytes : Bytes) × (n : ℕ) × (value ≡ ok bytes)
        × ((publish b topic key value log).0
            ≡ log ++ replicate (suc n) (record { topic = topic; key = key; value = bytes }))
  unfolding publish
  publish_stored topic key (err x) log e = cc
  publish_stored topic key (ok bytes) log e =
      let (n, stored) =
        laws.acknowledged (record { topic = topic; key = key; value = bytes }) log e in
      (bytes, n, refl, stored)

  -- Nothing that stands in a topic is lost or changed by a `Publish`, whatever it returns.
  pub publish-prefix :
      (topic key : String) (value : Result Bytes) (log : Log)
      → (more : Log) × ((publish b topic key value log).0 ≡ log ++ more)
  unfolding publish
  publish-prefix topic key (err x) log = ([], rw append-nil)
  publish-prefix topic key (ok bytes) log =
      let m : Message = record { topic = topic; key = key; value = bytes } in
      let (n, stored) = laws.stored m log in (replicate n m, stored)
