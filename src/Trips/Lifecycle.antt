-- ===== src/Trips/Lifecycle.antt =====
-- The life of a trip: the moves of one row, and what any number of moves keeps.
use uber.Base.{
  ℕ, ◌≤◌, String, Float, Time, none, some, List, [], ◌∷◌, ◌++◌, ◌≡◌, refl, ◌⊎◌, arith, All, All-map,
  ◌≢◌,
}
use uber.Trips.Model.{
  Trip, TripStatus, requested, matching, driver_assigned, started, completed, cancelled,
}

-- A driver can still be assigned.
abbrev pub IsOpen : TripStatus → Type 0
IsOpen s = (s ≡ requested) ⊎ (s ≡ matching)

-- The ride has begun.
abbrev pub IsUnderway : TripStatus → Type 0
IsUnderway s = (s ≡ started) ⊎ (s ≡ completed)

-- One change of a row.
pub data Move (t t' : Trip) : Type 0 where
  keep : t' ≡ t → Move t t'
  assign :
      (driver : String)
      → IsOpen t.status
      → t' ≡ record t { driver_id = some driver; status = driver_assigned }
      → Move t t'
  begin :
      (at : Time)
      → t.status ≡ driver_assigned
      → t' ≡ record t { status = started; started_at = some at }
      → Move t t'
  complete :
      (fare : Float) (at : Time)
      → IsUnderway t.status
      → t' ≡ record t { fare = some fare; status = completed; completed_at = some at }
      → Move t t'

-- How far a trip has come.
abbrev pub rank : TripStatus → ℕ
rank requested = 0
rank matching = 1
rank driver_assigned = 2
rank started = 3
rank completed = 4
rank cancelled = 5

-- What holds between a trip and the same trip later on.
pub record Later (t t' : Trip) : Type 0 where
  pub same_id : t'.id ≡ t.id
  pub same_rider : t'.rider_id ≡ t.rider_id
  pub same_pickup : (t'.pickup_lat ≡ t.pickup_lat) × (t'.pickup_lng ≡ t.pickup_lng)
  pub same_drop : (t'.drop_lat ≡ t.drop_lat) × (t'.drop_lng ≡ t.drop_lng)
  -- the status never goes back
  pub forward : rank t.status ≤ rank t'.status
  -- the driver of an assigned trip stays
  pub driver_stays : 2 ≤ rank t.status → t'.driver_id ≡ t.driver_id
  -- the start of a ride under way stays
  pub start_stays : 3 ≤ rank t.status → t'.started_at ≡ t.started_at

pub Later-refl : (t : Trip) → Later t t
Later-refl t = ground arith

pub Move-Later : {t t' : Trip} → Move t t' → Later t t'
Move-Later (keep e) = ground arith
Move-Later (assign driver o e) = ground arith
Move-Later (begin at s e) = ground arith
Move-Later (complete fare at s e) = ground arith

pub Later-trans : {t u v : Trip} → Later t u → Later u v → Later t v
Later-trans p q = ground arith

-- A trip that was just requested.
pub record IsFresh (t : Trip) : Type 0 where
  pub status_requested : t.status ≡ requested
  pub no_driver : t.driver_id ≡ none
  pub no_fare : t.fare ≡ none
  pub not_started : t.started_at ≡ none

-- Rows related one by one, with new rows at the end.
abbrev pub Grows : (Trip → Trip → Type 0) → (Trip → Type 0) → List Trip → List Trip → Type 0
Grows R New [] us = All New us
Grows R New (t ∷ ts) [] = ⊥
Grows R New (t ∷ ts) (u ∷ us) = R t u × Grows R New ts us

-- One step of the table: each row moves or stays, and what is added is fresh.
abbrev pub Evolves : List Trip → List Trip → Type 0
Evolves = Grows Move IsFresh

pub Evolves-refl : (ts : List Trip) → Evolves ts ts
Evolves-refl [] = tt
Evolves-refl (t ∷ ts) = (keep refl, Evolves-refl ts)

pub Evolves-append : (ts : List Trip) (t : Trip) → IsFresh t → Evolves ts (ts ++ t ∷ [])
Evolves-append [] t h = (h, tt)
Evolves-append (x ∷ ts) t h = (keep refl, Evolves-append ts t h)

-- What a trip that has come this far carries.
pub record IsWellFormed (t : Trip) : Type 0 where
  pub has_driver : 2 ≤ rank t.status → t.driver_id ≢ none
  pub has_start : 3 ≤ rank t.status → t.started_at ≢ none
  pub has_fare : 4 ≤ rank t.status → t.fare ≢ none
  pub has_end : 4 ≤ rank t.status → t.completed_at ≢ none
  pub not_cancelled : t.status ≢ cancelled

pub IsFresh-IsWellFormed : (t : Trip) → IsFresh t → IsWellFormed t
IsFresh-IsWellFormed t h = ground arith

pub Move-IsWellFormed : {t t' : Trip} → Move t t' → IsWellFormed t → IsWellFormed t'
Move-IsWellFormed (keep e) h = ground arith
Move-IsWellFormed (assign driver o e) h = ground arith
Move-IsWellFormed (begin at s e) h = ground arith
Move-IsWellFormed (complete fare at s e) h = ground arith

pub All-Evolves : (ts us : List Trip) → All IsWellFormed ts → Evolves ts us → All IsWellFormed us
All-Evolves [] us h e = All-map IsFresh IsWellFormed IsFresh-IsWellFormed us e
All-Evolves (t ∷ ts) [] h e = absurd e
All-Evolves (t ∷ ts) (u ∷ us) h e = (Move-IsWellFormed e.0 h.0, All-Evolves ts us h.1 e.1)

pub Grows-refl : (ts : List Trip) → Grows Later IsWellFormed ts ts
Grows-refl [] = tt
Grows-refl (t ∷ ts) = (Later-refl t, Grows-refl ts)

pub Grows-Evolves :
    (ts us vs : List Trip)
    → Grows Later IsWellFormed ts us
    → Evolves us vs
    → Grows Later IsWellFormed ts vs
Grows-Evolves [] us vs h e = All-Evolves us vs h e
Grows-Evolves (t ∷ ts) [] vs h e = absurd h
Grows-Evolves (t ∷ ts) (u ∷ us) [] h e = absurd e
Grows-Evolves (t ∷ ts) (u ∷ us) (v ∷ vs) h e =
    (Later-trans h.0 (Move-Later e.0), Grows-Evolves ts us vs h.1 e.1)
