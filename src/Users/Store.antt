-- ===== src/Users/Store.antt =====
-- The table `users` (ride-service/migrations/V1_create_users.sql): its rows, and the INSERT of
-- ride-service/internal/users/service.go.
use uber.Base.{String, Float, Time}
use uber.Accounts.Table.{Columns}

pub record UserRow : Type 0 where
  pub id : String
  pub name : String
  pub email : String
  pub phone : String
  pub password_hash : String
  pub rating : Float
  pub created_at : Time

-- The values of the INSERT.
pub record NewUser : Type 0 where
  pub id : String
  pub name : String
  pub email : String
  pub phone : String
  pub password_hash : String
  pub rating : Float

unfoldable pub user_row : NewUser → Time → UserRow
user_row n clock = record {
  id = n.id;
  name = n.name;
  email = n.email;
  phone = n.phone;
  password_hash = n.password_hash;
  rating = n.rating;
  created_at = clock;
}

abbrev pub user_columns : Columns UserRow
user_columns = record {
  id = λ u. u.id;
  email = λ u. u.email;
  phone = λ u. u.phone;
  password_hash = λ u. u.password_hash;
}
