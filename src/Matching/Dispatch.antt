-- ===== src/Matching/Dispatch.antt =====
-- The handler of `Matcher.Start`, and what it guarantees of the driver that it picks.
use uber.Base.{String, Go, Option, none, some, List, [], ◌∷◌, Result, ok, err}
use uber.Events.{Json, RideRequestedEvent, DriverAssignedEvent}
use uber.Kafka.{Broker, Log, Handler, publish, topic_driver_assigned}
use uber.Redis.{Redis, Geo, get_nearby_drivers, remove_driver_location}

-- What the matcher is built from, and the state that it shares with the rest of the service.
pub record Deps : Type 0 where
  pub go : Go
  pub broker : Broker
  pub json : Json
  pub redis : Redis

pub record World : Type 0 where
  pub geo : Geo
  pub log : Log

module _ (d : Deps) where
  open d use {go, broker, json, redis}

  -- The nearest driver within 5 km.
  unfoldable pub nearest_driver : RideRequestedEvent → Geo → Result (List String)
  unfolding get_nearby_drivers
  nearest_driver ev = get_nearby_drivers redis ev.pickup.lat ev.pickup.lng (go.of_nat 5) 1

  -- The driver is published, and taken out of the set if that returned no error. An error of the
  -- removal is dropped.
  unfoldable pub assign_nearest : RideRequestedEvent → String → World → World × Option String
  unfolding remove_driver_location
  assign_nearest ev driver w =
      let assigned : DriverAssignedEvent = record { trip_id = ev.trip_id; driver_id = driver } in
      let (log', failed) =
        publish broker topic_driver_assigned ev.trip_id (json.marshal_assigned assigned) w.log in
      elim failed [
        | some e ↦ (record w { log = log' }, some e)
        | none ↦ (record { geo = (remove_driver_location redis driver w.geo).0; log = log' }, none)
      ]

  unfoldable pub assign_first :
      RideRequestedEvent → Result (List String) → World → World × Option String
  unfolding assign_nearest
  assign_first ev (err e) w = (w, some e)
  assign_first ev (ok []) w = (w, none)
  assign_first ev (ok (driver ∷ _)) w = assign_nearest ev driver w

  unfoldable pub on_ride_requested : Handler World
  unfolding nearest_driver assign_first
  on_ride_requested bytes w = elim (json.unmarshal_requested bytes) [
    | err e ↦ (w, some e)
    | ok ev ↦ assign_first ev (nearest_driver ev w.geo) w
  ]
