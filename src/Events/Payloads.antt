-- ===== src/Events/Payloads.antt =====
-- The event payloads of ride-service/internal/events/events.go.
use uber.Base.{String, Float, Int64}

pub record LatLng : Type 0 where
  pub lat : Float
  pub lng : Float

pub record RideRequestedEvent : Type 0 where
  pub trip_id : String
  pub rider_id : String
  pub pickup : LatLng
  pub drop : LatLng
  pub requested_at : String

pub record DriverAssignedEvent : Type 0 where
  pub trip_id : String
  pub driver_id : String

pub record TripCompletedEvent : Type 0 where
  pub trip_id : String
  pub driver_id : String
  pub rider_id : String
  pub fare : Float
  pub completed_at : String
  pub duration_seconds : Int64
