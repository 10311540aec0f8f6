-- ===== src/Server/Process.antt =====
-- The running program (ride-service/cmd/main.go): requests, the goroutines that they spawn, the two
-- consumers, the calls that hold a web socket open, and the statements of requests that are still
-- running, in any order.
use uber.Base.{String, Float, Time, Option, List, [], ◌∷◌, ◌++◌, ◌≡◌, ok}
use uber.Kafka.{Message, topic_ride_requested, topic_driver_assigned}
use uber.Matching.Dispatch
use uber.Matching.Dispatch.{on_ride_requested}
use uber.Tracking.Handler.{Upgrade, refused, opened}
use uber.Tracking.Sessions.{Session, Room, IsNewConn, Moves, reading}
use uber.Trips.Model.{Trip}
use uber.Trips.Service.{World, Job, end_check, end_commit, run_job, on_driver_assigned}
use uber.Trips.System.{EndRun, System}
use uber.Trips.Simulation.{among}
use uber.Users.Store.{NewUser}
use uber.Drivers.Store.{NewDriver}
use uber.Server.Model.{
  ServerDeps, trip_deps, Server, Endpoint, health, users_at, drivers_at, trips_at, ws_trip_at,
  Request,
}
use uber.Server.Router.{serve}

-- matching.NewMatcher.
abbrev pub matcher_deps : ServerDeps → Dispatch.Deps
matcher_deps d = record { go = d.go; broker = d.broker; json = d.json; redis = d.redis }

-- The state of the services, the Ends that have read and not yet written, and the calls of
-- `HandleWS` that have not returned.
pub record Process : Type 0 where
  pub server : Server
  pub ends : List EndRun
  pub sessions : List Session

abbrev pub system : Process → System
system p = among p.ends p.server.trips

abbrev pub with_trips : List EndRun → World → Process → Process
with_trips ends w p = record p { server = record p.server { trips = w }; ends = ends }

abbrev pub room : Process → Room
room p = record { hub = p.server.hub; sessions = p.sessions }

abbrev pub with_room : Room → Process → Process
with_room r p = record p { server = record p.server { hub = r.hub }; sessions = r.sessions }

-- The call that a request leaves in its read loop.
abbrev pub kept_open : Endpoint → Upgrade → List Session
kept_open health u = []
kept_open (users_at route) u = []
kept_open (drivers_at route) u = []
kept_open (trips_at route) u = []
kept_open (ws_trip_at id) (refused status text) = []
kept_open (ws_trip_at id) (opened conn) = record { trip = id; conn = conn; phase = reading } ∷ []

-- A new connection is none of those in use.
abbrev pub IsNewUpgrade : Upgrade → List Session → Type 0
IsNewUpgrade (refused status text) sessions = Unit
IsNewUpgrade (opened conn) sessions = IsNewConn conn sessions

-- A request from its middleware to its reply, or up to the read loop.
abbrev pub answered : ServerDeps → Request → Process → Process
answered d r p = record p {
  server = (serve d r p.server).0;
  sessions = p.sessions ++ kept_open r.endpoint r.upgrade;
}

-- A round of the matcher on a message.
abbrev pub matched : ServerDeps → Message → Process → Process
matched d m p =
    let s = p.server in
    let w =
      (on_ride_requested (matcher_deps d) m.value
        (record { geo = s.drivers.geo; log = s.trips.log })).0 in
    record p {
      server = record s {
        drivers = record s.drivers { geo = w.geo };
        trips = record s.trips { log = w.log };
      };
    }

-- An `End`, and a registration, may stop between its reads and its statement; the statement is then
-- a step of its own. A message of a topic may be handed over at any time, and again.
pub data Step (d : ServerDeps) (p p' : Process) : Type 0 where
  serves : (r : Request) → IsNewUpgrade r.upgrade p.sessions → p' ≡ answered d r p → Step d p p'
  end_reads :
      (trip : String) (dist : Option Float) (t : Trip)
      → end_check (trip_deps d) trip p.server.trips.db ≡ ok t
      → p' ≡ with_trips (record { trip_id = trip; dist = dist; trip = t } ∷ p.ends) p.server.trips p
      → Step d p p'
  end_writes :
      (before : List EndRun) (e : EndRun) (after : List EndRun) (now : Time)
      → p.ends ≡ before ++ (e ∷ after)
      → p'
        ≡ with_trips
            (before ++ after)
            (end_commit (trip_deps d) e.trip_id e.dist now e.trip p.server.trips).0
            p
      → Step d p p'
  inserts_rider :
      (n : NewUser)
      → p' ≡ record p {
        server = record p.server { users = (d.user_sql.exec_insert n p.server.users).0 };
      }
      → Step d p p'
  inserts_driver :
      (n : NewDriver)
      → p' ≡ record p {
        server = record p.server {
          drivers = record p.server.drivers {
            db = (d.driver_sql.exec_insert n p.server.drivers.db).0;
          };
        };
      }
      → Step d p p'
  goroutine :
      (before : List Job) (j : Job) (after : List Job)
      → p.server.trips.jobs ≡ before ++ (j ∷ after)
      → p'
        ≡ with_trips p.ends
            (run_job (trip_deps d) j (record p.server.trips { jobs = before ++ after }))
            p
      → Step d p p'
  matches :
      (before : List Message) (m : Message) (after : List Message)
      → p.server.trips.log ≡ before ++ (m ∷ after)
      → m.topic ≡ topic_ride_requested
      → p' ≡ matched d m p
      → Step d p p'
  assigns :
      (before : List Message) (m : Message) (after : List Message)
      → p.server.trips.log ≡ before ++ (m ∷ after)
      → m.topic ≡ topic_driver_assigned
      → p' ≡ with_trips p.ends (on_driver_assigned (trip_deps d) m.value p.server.trips).0 p
      → Step d p p'
  moves : (r : Room) → Moves (room p) r → p' ≡ with_room r p → Step d p p'

pub data Run (d : ServerDeps) (p : Process) : Process → Type 0 where
  here : Run d p p
  next : {q r : Process} → Run d p q → Step d q r → Run d p r

pub Run-trans : (d : ServerDeps) {p q r : Process} → Run d p q → Run d q r → Run d p r
Run-trans d r here = r
Run-trans d r (next q st) = next (Run-trans d r q) st
