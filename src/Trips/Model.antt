-- ===== src/Trips/Model.antt =====
-- ride-service/internal/trips/model.go: the trip, its status, and the request bodies.
use uber.Base.{String, Float, Time, Int64, Option, Bool, true, false}

pub data TripStatus : Type 0 where
  requested matching driver_assigned started completed cancelled : TripStatus

-- `==` on the status texts, which are pairwise different.
abbrev pub status_eq : TripStatus → TripStatus → Bool
status_eq requested requested = true
status_eq matching matching = true
status_eq driver_assigned driver_assigned = true
status_eq started started = true
status_eq completed completed = true
status_eq cancelled cancelled = true
status_eq _ _ = false

-- A pointer field is an `Option`.
pub record Trip : Type 0 where
  pub id : String
  pub rider_id : String
  pub driver_id : Option String
  pub pickup_lat : Float
  pub pickup_lng : Float
  pub drop_lat : Float
  pub drop_lng : Float
  pub fare : Option Float
  pub status : TripStatus
  pub requested_at : Option Time
  pub started_at : Option Time
  pub completed_at : Option Time
  pub created_at : Time

pub record TripRequest : Type 0 where
  pub pickup_lat : Float
  pub pickup_lng : Float
  pub drop_lat : Float
  pub drop_lng : Float

pub record AssignRequest : Type 0 where
  pub driver_id : String

pub record EndRequest : Type 0 where
  pub distance_km : Option Float
  pub duration_seconds : Option Int64
