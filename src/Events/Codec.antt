-- ===== src/Events/Codec.antt =====
-- encoding/json on the event payloads: the bytes are not modelled, only that what `Marshal` writes
-- is what `Unmarshal` reads.
use uber.Base.{ℕ, List, Result, ok, ◌≡◌}
use uber.Events.Payloads.{RideRequestedEvent, DriverAssignedEvent, TripCompletedEvent}

abbrev pub Bytes : Type 0
Bytes = List ℕ

-- `Marshal` fails on a float that is a NaN or infinite.
pub record Json : Type 0 where
  pub marshal_requested : RideRequestedEvent → Result Bytes
  pub unmarshal_requested : Bytes → Result RideRequestedEvent
  pub marshal_assigned : DriverAssignedEvent → Result Bytes
  pub unmarshal_assigned : Bytes → Result DriverAssignedEvent
  pub marshal_completed : TripCompletedEvent → Result Bytes

pub record IsJson (j : Json) : Type 0 where
  pub requested_round_trip :
      (e : RideRequestedEvent) (b : Bytes)
      → j.marshal_requested e ≡ ok b
      → j.unmarshal_requested b ≡ ok e
  pub assigned_round_trip :
      (e : DriverAssignedEvent) (b : Bytes)
      → j.marshal_assigned e ≡ ok b
      → j.unmarshal_assigned b ≡ ok e
