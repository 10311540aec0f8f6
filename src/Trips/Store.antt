-- ===== src/Trips/Store.antt =====
-- The table `trips` (ride-service/migrations/V3_create_trips.sql) and the three statements that
-- ride-service/internal/trips/service.go sends to it. PostgreSQL is the parameter `Postgres`; what
-- the service relies on is `IsPostgres`.
use uber.Base.{
  ℕ, suc, String, Float, Time, Option, none, some, Bool, true, false, ◌&&◌, ◌||◌, List, [], ◌∷◌,
  ◌++◌, ◌≡◌, ◌⊎◌, Result, ok, if◌then◌else◌,
}
use uber.Trips.Model.{Trip, TripStatus, status_eq}

-- The values of an INSERT.
pub record NewTrip : Type 0 where
  pub id : String
  pub rider_id : String
  pub pickup_lat : Float
  pub pickup_lng : Float
  pub drop_lat : Float
  pub drop_lng : Float
  pub status : TripStatus
  pub requested_at : Time

-- `UPDATE trips SET ... WHERE id=$ AND status IN (...)`. A column that the statement does not set
-- is `none`; `none` for `where_status` is a statement that does not test the status.
pub record Update : Type 0 where
  pub set_status : TripStatus
  pub set_driver_id : Option String
  pub set_fare : Option Float
  pub set_started_at : Option Time
  pub set_completed_at : Option Time
  pub where_id : String
  pub where_status : Option (List TripStatus)

-- The rows, NOW() of the server, and whatever else decides whether a statement fails.
pub record Db : Type 0 where
  pub trips : List Trip
  pub clock : Time
  pub hidden : ℕ

pub record Postgres : Type 0 where
  -- equality of two UUIDs, which are sent as texts
  pub same_uuid : String → String → Bool
  -- the text that a UUID column gives back for the text that was stored in it
  pub uuid : String → String
  -- a value as DECIMAL(12,2) and as TIMESTAMPTZ keep it
  pub decimal : Float → Float
  pub timestamp : Time → Time
  pub exec_insert : NewTrip → Db → Db × Result ℕ
  pub exec_update : Update → Db → Db × Result ℕ
  pub query_row : String → Db → Result Trip

abbrev pub or_old {ℓ} : {A : Type ℓ} → Option A → Option A → Option A
or_old (some a) old = some a
or_old none old = old

abbrev pub map_option {ℓ κ} : {A : Type ℓ} {B : Type κ} → (A → B) → Option A → Option B
map_option f (some a) = some (f a)
map_option f none = none

abbrev pub status_in : TripStatus → List TripStatus → Bool
status_in s [] = false
status_in s (x ∷ xs) = status_eq s x || status_in s xs

abbrev pub status_test : Option (List TripStatus) → TripStatus → Bool
status_test none s = true
status_test (some xs) s = status_in s xs

module _ (pg : Postgres) where
  -- The row that an INSERT adds; the columns it does not name have their defaults. Its two UUIDs
  -- come from uuid.New and from a token that holds such an id, and are texts that a column gives
  -- back.
  unfoldable pub inserted : NewTrip → Time → Trip
  inserted n clock = record {
    id = n.id;
    rider_id = n.rider_id;
    driver_id = none;
    pickup_lat = n.pickup_lat;
    pickup_lng = n.pickup_lng;
    drop_lat = n.drop_lat;
    drop_lng = n.drop_lng;
    fare = none;
    status = n.status;
    requested_at = some (pg.timestamp n.requested_at);
    started_at = none;
    completed_at = none;
    created_at = pg.timestamp clock;
  }

  -- WHERE
  unfoldable pub selects : Update → Trip → Bool
  selects u t = pg.same_uuid u.where_id t.id && status_test u.where_status t.status

  -- SET
  unfoldable pub assign_columns : Update → Trip → Trip
  assign_columns u t = record t {
    driver_id = or_old (map_option pg.uuid u.set_driver_id) t.driver_id;
    fare = or_old (map_option pg.decimal u.set_fare) t.fare;
    status = u.set_status;
    started_at = or_old (map_option pg.timestamp u.set_started_at) t.started_at;
    completed_at = or_old (map_option pg.timestamp u.set_completed_at) t.completed_at;
  }

  unfoldable pub update_row : Update → Trip → Trip
  unfolding selects assign_columns
  update_row u t = if selects u t then assign_columns u t else t

  unfoldable pub update_rows : Update → List Trip → List Trip
  update_rows u [] = []
  update_rows u (t ∷ ts) = update_row u t ∷ update_rows u ts

  -- The rows that the statement changes, as its command tag counts them.
  unfoldable pub affected : Update → List Trip → ℕ
  affected u [] = 0
  affected u (t ∷ ts) = let rest = affected u ts in if selects u t then suc rest else rest

  -- No row has this id.
  abbrev pub IsNewId : String → List Trip → Type 0
  IsNewId id [] = Unit
  IsNewId id (t ∷ ts) = (pg.same_uuid id t.id ≡ false) × IsNewId id ts

  -- The rows' ids are pairwise different.
  abbrev pub IsKeyed : List Trip → Type 0
  IsKeyed [] = Unit
  IsKeyed (t ∷ ts) = IsNewId t.id ts × IsKeyed ts

  -- `SELECT ... WHERE id=$1`, its first row.
  unfoldable pub find : String → List Trip → Option Trip
  find id [] = none
  find id (t ∷ ts) = if pg.same_uuid id t.id then some t else find id ts

-- A statement takes effect as a whole or not at all, and one that succeeds has taken effect. After
-- an error it is open which: the acknowledgement may have been lost.
-- The primary key keeps a second row with the same id out.
pub record IsPostgres (pg : Postgres) : Type 0 where
  pub uuid_symmetric : (a b : String) → pg.same_uuid a b ≡ true → pg.same_uuid b a ≡ true
  pub uuid_euclidean :
      (a b c : String) → pg.same_uuid a b ≡ true → pg.same_uuid a c ≡ true → pg.same_uuid b c ≡ true
  pub insert_atomic :
      (n : NewTrip) (db : Db)
      → ((pg.exec_insert n db).0.trips ≡ db.trips)
        ⊎ (((pg.exec_insert n db).0.trips ≡ db.trips ++ inserted pg n db.clock ∷ [])
            × IsNewId pg n.id db.trips)
  pub insert_ok :
      (n : NewTrip) (db : Db) (k : ℕ)
      → (pg.exec_insert n db).1 ≡ ok k
      → ((pg.exec_insert n db).0.trips ≡ db.trips ++ inserted pg n db.clock ∷ [])
        × IsNewId pg n.id db.trips
  pub update_atomic :
      (u : Update) (db : Db)
      → ((pg.exec_update u db).0.trips ≡ db.trips)
        ⊎ ((pg.exec_update u db).0.trips ≡ update_rows pg u db.trips)
  pub update_ok :
      (u : Update) (db : Db) (k : ℕ)
      → (pg.exec_update u db).1 ≡ ok k
      → ((pg.exec_update u db).0.trips ≡ update_rows pg u db.trips) × (k ≡ affected pg u db.trips)
  pub query_ok :
      (id : String) (db : Db) (t : Trip) → pg.query_row id db ≡ ok t → find pg id db.trips ≡ some t
