-- ===== src/Drivers/Store.antt =====
-- The table `drivers` (ride-service/migrations/V2_create_drivers.sql): its rows, and the INSERT of
-- ride-service/internal/drivers/service.go.
use uber.Base.{String, Float, Time}
use uber.Accounts.Table.{Columns}

pub record DriverRow : Type 0 where
  pub id : String
  pub name : String
  pub email : String
  pub phone : String
  pub password_hash : String
  pub vehicle_type : String
  pub license_plate : String
  pub status : String
  pub rating : Float
  pub created_at : Time

-- The values of the INSERT.
pub record NewDriver : Type 0 where
  pub id : String
  pub name : String
  pub email : String
  pub phone : String
  pub password_hash : String
  pub vehicle_type : String
  pub license_plate : String
  pub status : String
  pub rating : Float

unfoldable pub driver_row : NewDriver → Time → DriverRow
driver_row n clock = record {
  id = n.id;
  name = n.name;
  email = n.email;
  phone = n.phone;
  password_hash = n.password_hash;
  vehicle_type = n.vehicle_type;
  license_plate = n.license_plate;
  status = n.status;
  rating = n.rating;
  created_at = clock;
}

abbrev pub driver_columns : Columns DriverRow
driver_columns = record {
  id = λ r. r.id;
  email = λ r. r.email;
  phone = λ r. r.phone;
  password_hash = λ r. r.password_hash;
}
