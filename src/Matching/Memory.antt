-- ===== src/Matching/Memory.antt =====
-- A codec that knows one ride and one driver, and a broker, for runs in memory.
use text.Mathlib.Text.{◌==◌}
use text.Mathlib.TextEquality.{eq_iff}
use uber.Base.{[], ◌∷◌, refl, arith, ok, err, if◌then◌else◌, eqb, ◌&&◌}
use uber.Events.{Json, IsJson, RideRequestedEvent, DriverAssignedEvent}
use uber.Kafka.{IsBroker}
use uber.Trips.Memory.{one_broker}

pub one_broker-IsBroker : IsBroker one_broker
one_broker-IsBroker = record { stored = λ m log. (1, refl); acknowledged = λ m log e. (0, refl) }

module _ (ride : RideRequestedEvent) (driver : DriverAssignedEvent) where
  abbrev pub one_of_each : Json
  one_of_each = record {
    marshal_requested = λ e.
        if e.trip_id == ride.trip_id
          && (e.rider_id == ride.rider_id
              && (e.requested_at == ride.requested_at
                  && (eqb e.pickup.lat ride.pickup.lat
                      && (eqb e.pickup.lng ride.pickup.lng
                          && (eqb e.drop.lat ride.drop.lat && eqb e.drop.lng ride.drop.lng)))))
        then ok (1 ∷ [])
        else err "json: unsupported value";
    unmarshal_requested = λ b. ok ride;
    marshal_assigned = λ e.
        if e.trip_id == driver.trip_id && e.driver_id == driver.driver_id
        then ok (2 ∷ [])
        else err "json: unsupported value";
    unmarshal_assigned = λ b. ok driver;
    marshal_completed = λ e. ok (3 ∷ []);
  }

  pub one_of_each-IsJson : IsJson one_of_each
  one_of_each-IsJson = record {
    requested_round_trip = λ e b h. ground (
      arith,
      eq_iff e.trip_id ride.trip_id,
      eq_iff e.rider_id ride.rider_id,
      eq_iff e.requested_at ride.requested_at,
    );
    assigned_round_trip = λ e b h.
        ground (arith, eq_iff e.trip_id driver.trip_id, eq_iff e.driver_id driver.driver_id);
  }
