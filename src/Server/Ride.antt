-- ===== src/Server/Ride.antt =====
-- From a request for a ride that is answered 201 to a driver, as a run of the program.
use uber.Base.{String, Option, none, some, true, [], ◌∷◌, ◌≡◌, refl, sym, ap, ◌∙◌, arith, inl}
use uber.Http.{Reply, json, plain, hijacked, panicked}
use uber.Events.{IsJson, RideRequestedEvent}
use uber.Kafka.{IsBroker, publish, topic_ride_requested}
use uber.Auth.Tokens.{Claims}
use uber.Auth.Middleware.{add_claims, bearer, optional_auth, require_auth}
use uber.Auth.Part.{lift, map_reply}
use uber.Redis.{IsRedis, Location, IsMember}
use uber.Matching.Choice.{query}
use uber.Trips.Model.{Trip, TripStatus, requested, driver_assigned}
use uber.Trips.Store.{IsPostgres, find}
use uber.Trips.Rows.{find-append_new}
use uber.Trips.Requesting.{request_ok}
use uber.Trips.Replies.{create_inv}
use uber.Trips.Handler as Trips
use uber.Trips.Handler.{Body, created, handle_request}
use uber.Trips.Service.{publish_requested, request}
use uber.Trips.System.{rows}
use uber.Server.Model.{ServerDeps, trip_deps, Server, trips_at, Payload, trip, Request}
use uber.Server.Router.{mounted, serve}
use uber.Server.Process.{
  Process, IsNewUpgrade, Step, Run, here, next, Run-trans, system, matcher_deps, answered,
}
use uber.Server.Booking.{AllAnswer, announced, booked-Run}

map_reply-trip :
    (x : Reply Body) (id : String) (s : TripStatus)
    → map_reply trip x ≡ json 201 (trip (created id s))
    → x ≡ json 201 (created id s)
map_reply-trip (json status b) id s e = ground arith
map_reply-trip (plain status text) id s e = absurd (ground arith)
map_reply-trip hijacked id s e = absurd (ground arith)
map_reply-trip panicked id s e = absurd (ground arith)

module _ (d : ServerDeps) where
  abbrev pub wanting : Request → Request
  wanting r = record r { endpoint = trips_at Trips.post_request }

  abbrev pub claims_of : Request → Option Claims
  claims_of r = add_claims d.jwt d.secret r.received (bearer r.authorization) none

  -- The event of the request.
  abbrev pub event_of : Request → Claims → RideRequestedEvent
  event_of r c =
      let req = (d.trip_decoders.decode_request r.body).0 in
      record {
        trip_id = r.id;
        rider_id = c.user_id;
        pickup = record { lat = req.pickup_lat; lng = req.pickup_lng };
        drop = record { lat = req.drop_lat; lng = req.drop_lng };
        requested_at = d.go.rfc3339 r.now;
      }

  -- The request is the handler's, with the claims of its header.
  serve_handle :
      (r : Request) (s : Server) (c : Claims)
      → claims_of r ≡ some c
      → serve d (wanting r) s ≡ (
          let (w, reply) =
            handle_request (trip_deps d) d.trip_decoders r.id r.now r.body (some c) s.trips in
          (record s { trips = w }, map_reply trip reply))
  unfolding serve optional_auth mounted lift Trips.routes require_auth Trips.dispatch
  serve_handle r s c held = rw held refl

  module _ (pg : IsPostgres d.pg) (uuid_refl : (a : String) → d.pg.same_uuid a a ≡ true) where
    -- What a 201 leaves behind.
    served_201 :
        (r : Request) (s : Server) (c : Claims) (id : String) (status : TripStatus)
        → claims_of r ≡ some c
        → (serve d (wanting r) s).1 ≡ json 201 (trip (created id status))
        → let w = (serve d (wanting r) s).0.trips in
          (w.jobs ≡ publish_requested (event_of r c) ∷ s.trips.jobs)
          × (row : Trip) × (find d.pg r.id w.db.trips ≡ some row)
          × (row.status ≡ requested)
          × (row.rider_id ≡ c.user_id)
          × (id ≡ r.id)
    served_201 r s c id status held e =
        let same = serve_handle r s c held in
        let (_, (t, made, is_id, _), after) =
          create_inv (trip_deps d) d.trip_decoders pg r.id id status r.now r.body c s.trips (
            map_reply-trip _ id status (ap (λ (x : Server × Reply Payload). x.1) (sym same) ∙ e)) in
        let req = (d.trip_decoders.decode_request r.body).0 in
        let (row, added, new, is, _, t_asked, jobs) =
          request_ok (trip_deps d) pg r.id r.now c.user_id req s.trips t (uuid_refl r.id) made in
        let worlds : (serve d (wanting r) s).0.trips
            ≡ (request (trip_deps d) r.id r.now c.user_id req s.trips).0 =
          ap (λ (x : Server × Reply Payload). x.0.trips) same ∙ after in
        let fields : (row.id ≡ r.id)
            × (row.status ≡ requested)
            × (row.rider_id ≡ c.user_id)
            × (t.id ≡ r.id) =
          ground arith in
        (
          rw worlds jobs,
          row,
          rw (worlds, added)
              (find-append_new d.pg r.id s.trips.db.trips row new (rw fields.0 (uuid_refl r.id))),
          fields.1,
          fields.2,
          sym is_id ∙ fields.3,
        )

  module _ (pg : IsPostgres d.pg) (uuid_refl : (a : String) → d.pg.same_uuid a a ≡ true)
      (broker : IsBroker d.broker) (redis : IsRedis d.redis) (json_laws : IsJson d.json) where
    -- A request for a ride that is answered 201 to a user with the claims `c`, with PostgreSQL, the
    -- brokers, Redis and the JSON round trip as documented and an id that equals itself. Where some
    -- driver is within 5 km, and the goroutine's write, the matcher's round and the consumer's
    -- round return no error, there is a run of the program from the state before the request to one
    -- where the trip of the reply, with that user as its rider, is DRIVER_ASSIGNED to a driver of
    -- the set, whose id it has as a UUID column gives it back.
    pub ride-Run :
        (r : Request) (p : Process) (c : Claims) (id : String) (status : TripStatus) (y : Location)
        → IsNewUpgrade r.upgrade p.sessions
        → claims_of r ≡ some c
        → (serve d (wanting r) p.server).1 ≡ json 201 (trip (created id status))
        → let ev = event_of r c in
          let p1 = answered d (wanting r) p in
          IsMember y p1.server.drivers.geo.members
          → d.redis.within (query (matcher_deps d) ev) y ≡ true
          → (publish d.broker topic_ride_requested r.id
              (d.json.marshal_requested ev)
              p1.server.trips.log).1
            ≡ none
          → AllAnswer d ev (announced d ev p.server.trips.jobs p1)
          → (p' : Process) × Run d p p'
            × (x : Location) × IsMember x p1.server.drivers.geo.members
            × (row : Trip) × (find d.pg id (rows (system p')) ≡ some row)
            × (row.rider_id ≡ c.user_id)
            × (row.driver_id ≡ some (d.pg.uuid x.name))
            × (row.status ≡ driver_assigned)
    ride-Run r p c id status y free held e member near sent answers =
        let (jobs, row, found, waiting, rider, is) =
          served_201 pg uuid_refl r p.server c id status held e in
        let (p', rest, x, at, booked) =
          booked-Run d pg broker redis json_laws (answered d (wanting r) p) [] (event_of r c)
            p.server.trips.jobs row y jobs found (inl waiting) member near sent answers in
        (
          p',
          Run-trans d (next here (Step.serves (wanting r) free refl)) rest,
          x,
          at,
          record row { driver_id = some (d.pg.uuid x.name); status = driver_assigned },
          rw is booked,
          rider,
          refl,
          refl,
        )
