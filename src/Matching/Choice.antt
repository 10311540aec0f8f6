-- ===== src/Matching/Choice.antt =====
-- Which driver the matcher picks, and what it leaves behind.
use uber.Base.{
  ℕ, suc, ◌≤◌, String, Option, none, some, true, false, List, [], ◌∷◌, ◌++◌, ◌≡◌, refl, inl, inr,
  arith, Result, Result-cases, ok, err, ap, ◌∙◌, length,
}
use uber.Events.{Bytes, RideRequestedEvent}
use uber.Kafka.{IsBroker, Read, consume, delivered, publish, replicate, topic_driver_assigned}
use uber.Kafka.Delivery.{publish_stored, handle_all}
use uber.Kafka.Once.{IsReadOnce, recorded, consume-once}
use uber.Redis.{IsRedis, Location, Query, IsMember, IsAnswer}
use uber.Matching.Dispatch.{
  Deps, World, nearest_driver, assign_nearest, assign_first, on_ride_requested,
}

module _ (d : Deps) where
  abbrev pub query : RideRequestedEvent → Query
  query ev = record {
    longitude = ev.pickup.lng;
    latitude = ev.pickup.lat;
    radius = d.go.of_nat 5;
    radius_unit = "km";
    count = 1;
    sort = "ASC";
  }

  abbrev marshal : RideRequestedEvent → String → Result Bytes
  marshal ev driver = d.json.marshal_assigned (record { trip_id = ev.trip_id; driver_id = driver })

  read_round :
      (bytes : Bytes) (ev : RideRequestedEvent) (w : World)
      → d.json.unmarshal_requested bytes ≡ ok ev
      → on_ride_requested d bytes w ≡ assign_first d ev (nearest_driver d ev w.geo) w
  unfolding on_ride_requested
  read_round bytes ev w read = rw (read, on_ride_requested)

  not_failed :
      (ev : RideRequestedEvent) (reason : String) (w w' : World)
      → ¬ (assign_first d ev (err reason) w ≡ (w', none))
  unfolding assign_first
  not_failed ev reason w w' e = ground arith

  -- How a round of the matcher that returns no error has ended.
  pub data Matched (ev : RideRequestedEvent) (w w' : World) : Type 0 where
    nobody :
        ((y : Location) → IsMember y w.geo.members → d.redis.within (query ev) y ≡ false)
        → w' ≡ w
        → Matched ev w w'
    picked :
        (x : Location) (value : Bytes) (n : ℕ)
        → IsMember x w.geo.members
        → ((y : Location)
            → IsMember y w.geo.members
            → d.redis.within (query ev) y ≡ true
            → d.redis.distance ev.pickup.lng ev.pickup.lat x
              ≤ d.redis.distance ev.pickup.lng ev.pickup.lat y)
        → d.json.marshal_assigned (record { trip_id = ev.trip_id; driver_id = x.name }) ≡ ok value
        → w'.log
          ≡ w.log
            ++ replicate
                (suc n)
                (record { topic = topic_driver_assigned; key = ev.trip_id; value = value })
        → w'.geo ≡ (d.redis.z_rem x.name w.geo).0
        → Matched ev w w'

  module _ (broker : IsBroker d.broker) (redis : IsRedis d.redis) where
    search_ok :
        (ev : RideRequestedEvent) (w : World) (names : List String)
        → nearest_driver d ev w.geo ≡ ok names
        → IsAnswer d.redis (query ev) w.geo.members names
    unfolding nearest_driver
    search_ok ev w names e = redis.search_ok (query ev) w.geo names (ground arith)

    assign_nearest_inv :
        (ev : RideRequestedEvent) (driver : String) (w : World)
        → (assign_nearest d ev driver w).1 ≡ none
        → let sent = publish d.broker topic_driver_assigned ev.trip_id (marshal ev driver) w.log in
          (sent.1 ≡ none)
          × ((assign_nearest d ev driver w).0
              ≡ record { geo = (d.redis.z_rem driver w.geo).0; log = sent.0 })
    unfolding assign_nearest
    assign_nearest_inv ev driver w e = ground arith

    assign_nearest_ok :
        (ev : RideRequestedEvent) (driver : String) (w : World)
        → (assign_nearest d ev driver w).1 ≡ none
        → (value : Bytes) × (n : ℕ) × (d.json.marshal_assigned
              (record { trip_id = ev.trip_id; driver_id = driver })
            ≡ ok value)
          × ((assign_nearest d ev driver w).0.log
              ≡ w.log
                ++ replicate
                    (suc n)
                    (record { topic = topic_driver_assigned; key = ev.trip_id; value = value }))
          × ((assign_nearest d ev driver w).0.geo ≡ (d.redis.z_rem driver w.geo).0)
    assign_nearest_ok ev driver w e =
        let (sent, after) = assign_nearest_inv ev driver w e in
        let (value, n, bytes, stored) =
          publish_stored d.broker broker topic_driver_assigned ev.trip_id (marshal ev driver) w.log
            sent in
        (value, n, bytes, ap World.log after ∙ stored, ap World.geo after)

    assign_first_ok :
        (ev : RideRequestedEvent) (w : World) (names : List String)
        → IsAnswer d.redis (query ev) w.geo.members names
        → (assign_first d ev (ok names) w).1 ≡ none
        → Matched ev w (assign_first d ev (ok names) w).0
    unfolding assign_first
    assign_first_ok ev w [] answer e = nobody (answer.empty refl (omega arith)) refl
    assign_first_ok ev w (name ∷ rest) answer e =
        let (x, member, named, nearest) = answer.first name rest refl refl in
        let (value, n, bytes, stored, gone) = assign_nearest_ok ev name w e in
        picked x value n member nearest (rw named bytes) stored (rw named gone)

    -- A round on an event that returns no error, with the broker and Redis as documented: either no
    -- driver is within 5 km and nothing has changed, or the nearest driver in the set is picked.
    -- Then driver.assigned for this trip and that driver stands in its topic, at least once, and
    -- the driver was asked to be taken out of the set.
    pub on_ride_requested_ok :
        (bytes : Bytes) (ev : RideRequestedEvent) (w w' : World)
        → d.json.unmarshal_requested bytes ≡ ok ev
        → on_ride_requested d bytes w ≡ (w', none)
        → Matched ev w w'
    on_ride_requested_ok bytes ev w w' read e = elim (Result-cases (nearest_driver d ev w.geo)) [
      | inl (names, found) ↦
          let same : assign_first d ev (ok names) w ≡ (w', none) =
            rw (← found, ← read_round bytes ev w read) e in
          rw (← ap (λ (r : World × Option String). r.0) same) (
            assign_first_ok ev w names (search_ok ev w names found)
              (ap (λ (r : World × Option String). r.1) same))
      | inr (reason, failed) ↦
          let same : assign_first d ev (err reason) w ≡ (w', none) =
            rw (← failed, ← read_round bytes ev w read) e in
          absurd (not_failed ev reason w w' same)
    ]

  -- With reads in which each stored message comes once: a message of ride.requested whose search of
  -- the drivers fails, when its turn comes and it was read, is lost. The handler returns the error;
  -- but it is called once for each message that was read, this one included, and the state at the
  -- end is the one without this message.
  pub search_error_drops :
      (front : List Bytes) (bytes : Bytes) (back : List Bytes) (reads : List Read)
      (ev : RideRequestedEvent) (reason : String) (w : World)
      → IsReadOnce (front ++ bytes ∷ back) reads
      → suc (length front) ≤ length (delivered reads)
      → d.json.unmarshal_requested bytes ≡ ok ev
      → nearest_driver d ev (handle_all (on_ride_requested d) front w).geo ≡ err reason
      → ((on_ride_requested d bytes (handle_all (on_ride_requested d) front w)).1 ≡ some reason)
        × (later : List Bytes) × (unread : List Bytes) × (back ≡ later ++ unread)
        × (consume (recorded (on_ride_requested d)) reads (w, [])
            ≡ (handle_all (on_ride_requested d) (front ++ later) w, front ++ bytes ∷ later))
  unfolding assign_first
  search_error_drops front bytes back reads ev reason w once reached read e =
      let before = handle_all (on_ride_requested d) front w in
      let same : on_ride_requested d bytes before ≡ (before, some reason) =
        read_round bytes ev before read ∙ (rw e) in
      let (later, unread, split, run) =
        consume-once (on_ride_requested d) front bytes back reads w once reached
          (ap (λ (r : World × Option String). r.0) same) in
      (rw same, later, unread, split, run)
