-- ===== src/Drivers/Model.antt =====
-- ride-service/internal/drivers/model.go. Go's zero time is `none`.
use uber.Base.{String, Float, Time, Option}

pub record Driver : Type 0 where
  pub id : String
  pub name : String
  pub email : String
  pub phone : String
  pub password_hash : String
  pub vehicle_type : String
  pub license_plate : String
  pub status : String
  pub rating : Float
  pub created_at : Option Time

pub record RegisterRequest : Type 0 where
  pub name : String
  pub email : String
  pub phone : String
  pub password : String
  pub vehicle_type : String
  pub license_plate : String

pub record LoginRequest : Type 0 where
  pub email : String
  pub password : String

pub record LocationUpdate : Type 0 where
  pub lat : Float
  pub lng : Float

pub record AuthResponse : Type 0 where
  pub token : String
  pub driver : Driver
