-- ===== src/Matching/Tests.antt =====
-- The matcher on a set of drivers in memory, with a broker and a codec that can be run.
use uber.Base.{none, some, List, [], ◌∷◌, ◌++◌, ◌≡◌, refl, arith, err}
use uber.Events.{Bytes, Json, RideRequestedEvent}
use uber.Kafka.{Read, message, read_error, consume, publish, topic_driver_assigned}
use uber.Kafka.Delivery.{consume-delivered, handle_all}
use uber.Kafka.Once.{recorded}
use uber.Redis.{Location}
use uber.Matching.Dispatch
use uber.Matching.Dispatch.{on_ride_requested, nearest_driver, assign_first, assign_nearest}
use uber.Matching.Choice.{Matched, on_ride_requested_ok, search_error_drops}
use uber.Matching.Memory.{one_broker-IsBroker, one_of_each}
use uber.Redis.Everywhere.{everywhere, everywhere-IsRedis}
use uber.Trips.Memory.{whole, one_broker}

abbrev ride_wanted : RideRequestedEvent
ride_wanted = record {
  trip_id = "t1";
  rider_id = "r1";
  pickup = record { lat = 12; lng = 77 };
  drop = record { lat = 13; lng = 78 };
  requested_at = "2026-01-01T00:00:00Z";
}

-- A codec of the two events of the run.
abbrev two_events : Json
two_events = one_of_each ride_wanted (record { trip_id = "t1"; driver_id = "d1" })

abbrev parts : Dispatch.Deps
parts = record { go = whole; broker = one_broker; json = two_events; redis = everywhere }

abbrev driver : Location
driver = record { name = "d1"; longitude = 77; latitude = 12 }

abbrev before : Dispatch.World
before = record { geo = record { members = driver ∷ []; hidden = 0 }; log = [] }

abbrev after : Dispatch.World
after = record {
  geo = record { members = []; hidden = 0 };
  log = record { topic = topic_driver_assigned; key = "t1"; value = 2 ∷ [] } ∷ [];
}

round : on_ride_requested parts (1 ∷ []) before ≡ (after, none)
unfolding on_ride_requested publish
round = refl

on_ride_requested_ok_example : Matched parts ride_wanted before after
on_ride_requested_ok_example =
    on_ride_requested_ok parts one_broker-IsBroker everywhere-IsRedis (1 ∷ []) ride_wanted before
      after refl round

-- Redis does not answer.
abbrev silent_parts : Dispatch.Deps
silent_parts = record parts {
  redis = record everywhere { geo_search = λ q g. err "connection refused" };
}

-- A first message that is lost, and a second one behind it.
abbrev two_reads : List Read
two_reads = message (1 ∷ []) ∷ read_error "EOF" ∷ message (2 ∷ []) ∷ []

search_error_drops_example :
    ((on_ride_requested silent_parts (1 ∷ []) before).1 ≡ some "connection refused")
    × (later : List Bytes) × (unread : List Bytes) × ((2 ∷ []) ∷ [] ≡ later ++ unread)
    × (consume (recorded (on_ride_requested silent_parts)) two_reads (before, []) ≡ (
      handle_all (on_ride_requested silent_parts) ([] ++ later) before,
      [] ++ (1 ∷ []) ∷ later,
    ))
unfolding nearest_driver
search_error_drops_example =
    search_error_drops silent_parts [] (1 ∷ []) ((2 ∷ []) ∷ []) two_reads ride_wanted
      "connection refused" before ([], refl) (omega arith) refl refl

consume-delivered_example :
    consume (on_ride_requested parts) (message (1 ∷ []) ∷ message (1 ∷ []) ∷ []) before
    ≡ handle_all (on_ride_requested parts) ((1 ∷ []) ∷ (1 ∷ []) ∷ []) before
consume-delivered_example =
    consume-delivered (on_ride_requested parts) (message (1 ∷ []) ∷ message (1 ∷ []) ∷ []) before
