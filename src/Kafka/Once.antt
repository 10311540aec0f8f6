-- ===== src/Kafka/Once.antt =====
-- ride-service/pkg/kafka/client.go: which messages `Subscribe` hands to its handler, and how often.
use uber.Base.{
  suc, ◌≤◌, List, [], ◌∷◌, ◌++◌, ◌≡◌, arith, ap, sym, ◌∙◌, length, append-nil, append_assoc,
}
use uber.Events.{Bytes}
use uber.Kafka.Core.{Read, Handler, consume, delivered}
use uber.Kafka.Delivery.{handle_all, consume-delivered}

-- `ReadMessage` in a consumer group commits the offset of what it returns, so the messages stored
-- for a reader come in order and each once, up to those that it has not come to.
abbrev pub IsReadOnce : (stored : List Bytes) → List Read → Type 0
IsReadOnce stored reads = (unread : List Bytes) × (stored ≡ delivered reads ++ unread)

-- A handler that keeps, beside its state, the values that it was called with.
abbrev pub recorded : {S : Type 0} → Handler S → Handler (S × List Bytes)
recorded handler value (s, calls) =
    let (s', failed) = handler value s in ((s', calls ++ value ∷ []), failed)

handle_all-recorded :
    {S : Type 0} (handler : Handler S) (values : List Bytes) (s : S) (calls : List Bytes)
    → handle_all (recorded handler) values (s, calls)
      ≡ (handle_all handler values s, calls ++ values)
handle_all-recorded handler [] s calls = ap (λ (c : List Bytes). (s, c)) (sym (append-nil calls))
handle_all-recorded handler (value ∷ rest) s calls =
    handle_all-recorded handler rest (handler value s).0 (calls ++ value ∷ []) ∙ (rw append_assoc)

-- A value that leaves the state as it is may be left out.
handle_all-skipped :
    {S : Type 0} (handler : Handler S) (front : List Bytes) (value : Bytes) (later : List Bytes)
    (s : S)
    → (handler value (handle_all handler front s)).0 ≡ handle_all handler front s
    → handle_all handler (front ++ value ∷ later) s ≡ handle_all handler (front ++ later) s
handle_all-skipped handler [] value later s e = ap (handle_all handler later) e
handle_all-skipped handler (x ∷ front) value later s e =
    handle_all-skipped handler front value later (handler x s).0 e

-- The messages that were read from the `front` on.
split_at :
    (front : List Bytes) (value : Bytes) (back read unread : List Bytes)
    → front ++ value ∷ back ≡ read ++ unread
    → suc (length front) ≤ length read
    → (later : List Bytes) × (read ≡ front ++ value ∷ later) × (back ≡ later ++ unread)
split_at [] value back [] unread e h = absurd (omega (arith, h))
split_at [] value back (y ∷ read) unread e h = (read, ground arith, ground arith)
split_at (x ∷ front) value back [] unread e h = absurd (ground arith)
split_at (x ∷ front) value back (y ∷ read) unread e h =
    let (later, at, rest) = split_at front value back read unread (ground arith) (omega arith) in
    (later, ground arith, rest)

-- With reads that come once, a message that the handler fails on without effect is handed to it
-- once, between its neighbours.
pub consume-once :
    {S : Type 0} (handler : Handler S) (front : List Bytes) (value : Bytes) (back : List Bytes)
    (reads : List Read) (s : S)
    → IsReadOnce (front ++ value ∷ back) reads
    → suc (length front) ≤ length (delivered reads)
    → (handler value (handle_all handler front s)).0 ≡ handle_all handler front s
    → (later : List Bytes) × (unread : List Bytes) × (back ≡ later ++ unread)
      × (consume (recorded handler) reads (s, [])
          ≡ (handle_all handler (front ++ later) s, front ++ value ∷ later))
consume-once {S = S} handler front value back reads s (unread, once) reached idle =
    let (later, at, rest) = split_at front value back (delivered reads) unread once reached in
    (
      later,
      unread,
      rest,
      consume-delivered (recorded handler) reads (s, [])
          ∙ (handle_all-recorded handler (delivered reads) s []
              ∙ (rw at (
                  ap (λ (t : S). (t, front ++ value ∷ later))
                    (handle_all-skipped handler front value later s idle)))),
    )
