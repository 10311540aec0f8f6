-- ===== src/Server/Runs.antt =====
-- Runs of the program (ride-service/cmd/main.go), with the steps of its parts in any order.
use uber.Base.{ℕ, String, Option, none, true, [], ◌++◌, ◌≡◌, refl, ◌∙◌, append-nil, All}
use uber.Events.{IsJson}
use uber.Kafka.{IsBroker}
use uber.Auth.Tokens.{Claims}
use uber.Auth.Middleware.{add_claims, bearer, optional_auth}
use uber.Auth.Part.{lift}
use uber.Users.Handler.{UserBody}
use uber.Tracking.Handler.{handle_ws, Upgrade, refused, opened}
use uber.Tracking.Sessions.{Room, enter}
use uber.Tracking.Audience.{IsServed, enter-IsServed, Moves-IsServed, conns_of_nobody}
use uber.Trips.Store.{IsPostgres}
use uber.Trips.Lifecycle.{Later, Grows, Grows-refl, Grows-Evolves, IsWellFormed}
use uber.Trips.Life.{Lives, Born, Lives-refl, Lives-Evolves}
use uber.Trips.System.{Inv, rows}
use uber.Trips.Traced.{IsTraced}
use uber.Server.Model.{
  ServerDeps, trip_deps, Endpoint, health, users_at, drivers_at, trips_at, ws_trip_at, Request,
}
use uber.Server.Router.{mounted, serve}
use uber.Server.Process.{Process, Step, Run, here, next, system, room, kept_open, IsNewUpgrade}
use uber.Server.Effects.{Step-Effect, Grows-Effect, Inv-Effect, IsWellFormed-Effect}
use uber.Server.Provenance.{IsTraced-Effect}

module _ (d : ServerDeps) (laws : IsPostgres d.pg) where
  -- On a PostgreSQL that keeps `IsPostgres`, at every state that a run reaches from one where it is
  -- so: the ids of the trips are unique, and the trip of every `End` between its read and its
  -- update is under way.
  pub Run-Inv :
      {p p' : Process} → Run d p p' → Inv (trip_deps d) (system p) → Inv (trip_deps d) (system p')
  Run-Inv here i = i
  Run-Inv (next r st) i = Inv-Effect d laws (Step-Effect d st) (Run-Inv r i)

  -- Over any run of the program from a state where the ids are unique and the Ends hold their
  -- trips, on a PostgreSQL that keeps `IsPostgres`: each trip keeps its id, rider and places, its
  -- status never goes back, its driver stays from the assignment on and its start time from the
  -- start on; no row is lost, and the rows that are added are well formed.
  pub Run-Later :
      {p p' : Process}
      → Run d p p'
      → Inv (trip_deps d) (system p)
      → Grows Later IsWellFormed (rows (system p)) (rows (system p'))
  Run-Later {p} here i = Grows-refl (rows (system p))
  Run-Later {p} (next r st) i =
      Grows-Effect d laws Later IsWellFormed Grows-Evolves (rows (system p)) (Step-Effect d st)
        (Run-Inv r i) (Run-Later r i)

  -- Over such a run every row has only made moves of a trip's life, one at a time: an open trip is
  -- given a driver, an assigned one is started, one that is started or completed is completed, and
  -- nothing else of the row changes in a move. A row that was added has made them from a trip that
  -- was just requested.
  pub Run-Lives :
      {p p' : Process}
      → Run d p p'
      → Inv (trip_deps d) (system p)
      → Grows Lives Born (rows (system p)) (rows (system p'))
  Run-Lives {p} here i = Lives-refl (rows (system p))
  Run-Lives {p} (next r st) i =
      Grows-Effect d laws Lives Born Lives-Evolves (rows (system p)) (Step-Effect d st)
        (Run-Inv r i) (Run-Lives r i)

  -- Over such a run from a state where the rows are well formed they stay so: an assigned trip has
  -- a driver, a started one a start time, and a completed one a fare and a completion time.
  pub Run-IsWellFormed :
      {p p' : Process}
      → Run d p p'
      → Inv (trip_deps d) (system p)
      → All IsWellFormed (rows (system p))
      → All IsWellFormed (rows (system p'))
  Run-IsWellFormed here i h = h
  Run-IsWellFormed (next r st) i h =
      IsWellFormed-Effect d laws (Step-Effect d st) (Run-Inv r i) (Run-IsWellFormed r i h)

  -- Over such a run from a state where it is so, with the brokers and the JSON round trip as
  -- documented and an id that equals itself: every message of ride.requested is the marshalled
  -- event of a trip in the table with this rider and these places, every message of driver.assigned
  -- names a trip of the table, and every message of trip.completed is about a trip that is
  -- COMPLETED with this rider and driver; no other message stands in a topic. So it is with the
  -- event of every goroutine that has not run, and every `End` between its halves has read its trip
  -- as it was.
  pub Run-IsTraced :
      IsBroker d.broker
      → IsJson d.json
      → ((a : String) → d.pg.same_uuid a a ≡ true)
      → {p p' : Process} → Run d p p'
      → Inv (trip_deps d) (system p)
      → IsTraced d.pg d.json (system p)
      → IsTraced d.pg d.json (system p')
  Run-IsTraced broker json uuid_refl here i t = t
  Run-IsTraced broker json uuid_refl (next r st) i t =
      IsTraced-Effect d laws broker json uuid_refl (Step-Effect d st) (Run-Inv r i)
        (Run-IsTraced broker json uuid_refl r i t)

-- The calls that hold a web socket open.
handle_ws-IsServed :
    (trip : String) (u : Upgrade) (spare : ℕ) (context : Option Claims) (r : Room)
    → IsNewUpgrade u r.sessions
    → IsServed r
    → IsServed (record {
      hub = (handle_ws {B = UserBody} u spare trip context r.hub).0;
      sessions = r.sessions ++ kept_open (ws_trip_at trip) u;
    })
unfolding handle_ws enter
handle_ws-IsServed trip (refused status text) spare c r new s = rw append-nil s
handle_ws-IsServed trip (opened conn) spare c r new s = enter-IsServed spare trip conn r new s

module _ (d : ServerDeps) where
  mounted-IsServed :
      (e : Endpoint) (r : Request) (context : Option Claims) (p : Process)
      → IsNewUpgrade r.upgrade p.sessions
      → IsServed (room p)
      → IsServed (record {
        hub = (mounted d e r context p.server).0.hub;
        sessions = p.sessions ++ kept_open e r.upgrade;
      })
  unfolding mounted lift
  mounted-IsServed health r c p new s = rw append-nil s
  mounted-IsServed (users_at route) r c p new s = rw append-nil s
  mounted-IsServed (drivers_at route) r c p new s = rw append-nil s
  mounted-IsServed (trips_at route) r c p new s = rw append-nil s
  mounted-IsServed (ws_trip_at id) r c p new s =
      handle_ws-IsServed id r.upgrade r.spare c (room p) new s

  Step-IsServed : {p p' : Process} → Step d p p' → IsServed (room p) → IsServed (room p')
  unfolding serve optional_auth
  Step-IsServed {p} (Step.serves r new e) s = rw e (
      mounted-IsServed r.endpoint r
        (add_claims d.jwt d.secret r.received (bearer r.authorization) none) p new s)
  Step-IsServed (Step.end_reads trip dist t c e) s = rw e s
  Step-IsServed (Step.end_writes before x after now split e) s = rw e s
  Step-IsServed (Step.inserts_rider n e) s = rw e s
  Step-IsServed (Step.inserts_driver n e) s = rw e s
  Step-IsServed (Step.goroutine before j after split e) s = rw e s
  Step-IsServed (Step.matches before m after split topic e) s = rw e s
  Step-IsServed (Step.assigns before m after split topic e) s = rw e s
  Step-IsServed (Step.moves r m e) s = rw e (Moves-IsServed m s)

  -- Over any run from a state where it is so: the subscribers of each trip are the connections of
  -- the calls of `HandleWS` for it that have not taken theirs out, in the order in which they came,
  -- each connection stands in one call, and no trip is kept without a subscriber.
  pub Run-IsServed : {p p' : Process} → Run d p p' → IsServed (room p) → IsServed (room p')
  Run-IsServed here s = s
  Run-IsServed (next r st) s = Step-IsServed st (Run-IsServed r s)

  -- After such a run, if every call of `HandleWS` has returned, the hub's table is empty: no
  -- connection is left behind.
  pub conns-Run :
      {p p' : Process}
      → Run d p p'
      → IsServed (room p)
      → p'.sessions ≡ []
      → p'.server.hub.conns ≡ []
  conns-Run {p'} r s none_left =
      let s' = Run-IsServed r s in
      conns_of_nobody p'.server.hub p'.server.hub.conns s'.reachable refl
        (λ j. s'.heard j ∙ rw none_left refl)
