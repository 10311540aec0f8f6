-- ===== src/Server/ProcessTests.antt =====
-- A run of the program on memory: a rider asks for a ride and watches it, the goroutine, the
-- matcher and the consumer take their turns, and the rider's socket closes.
use uber.Base.{[], ◌∷◌, ◌≡◌, refl, All}
use text.Mathlib.TextEquality.{eq_iff}
use uber.Kafka.{Message, publish, topic_ride_requested, topic_driver_assigned}
use uber.Auth.Middleware.{bearer, require_auth}
use uber.Auth.Tokens.{validate}
use uber.Validation.{validate_coordinates}
use uber.Drivers.Locations.{handle_update_location}
use uber.Matching.Dispatch.{on_ride_requested}
use uber.Tracking.Hub.{remove_conn}
use uber.Tracking.Refinement.{run, audience, run-IsReachable, subscribers-run}
use uber.Tracking.Sessions.{Phase, reading, leaving, removed, Session, Moves}
use uber.Tracking.Audience.{IsServed}
use uber.Tracking.Handler.{opened}
use uber.Matching.Memory.{one_of_each-IsJson, one_broker-IsBroker}
use uber.Trips.Handler as Trips
use uber.Trips.Memory.{memory-IsPostgres, insert_memory}
use uber.Trips.Service.{Job, run_job, on_driver_assigned, request}
use uber.Server.Model.{trip_deps, Request, drivers_at, ws_trip_at}
use uber.Drivers.Routes as Drivers
use uber.Server.Memory.{request_to, wanted, taken, talking, start, asks}
use uber.Server.Router.{serve}
use uber.Trips.Lifecycle.{Later, Grows, IsWellFormed}
use uber.Trips.System.{Inv, rows}
use uber.Trips.Traced.{IsTraced}
use uber.Trips.Life.{Lives, Born}
use uber.Server.Runs.{
  Run-Inv, Run-Later, Run-Lives, Run-IsWellFormed, Run-IsTraced, Run-IsServed, conns-Run,
}
use uber.Trips.Handler.{Body}
use uber.Server.Process.{
  Process, Step, Run, here, next, Run-trans, system, room, answered, matched, with_trips, with_room,
}

abbrev watches : Request
watches = record (request_to (ws_trip_at "t1") "") { upgrade = opened 9 }

abbrev job : Job
job = Job.publish_requested wanted

abbrev wish : Message
wish = record { topic = topic_ride_requested; key = "t1"; value = 1 ∷ [] }

abbrev answer : Message
answer = record { topic = topic_driver_assigned; key = "t1"; value = 2 ∷ [] }

abbrev asked : Process
asked = answered talking asks start

abbrev watched : Process
watched = answered talking watches asked

abbrev sent : Process
sent =
    with_trips [] (run_job (trip_deps talking) job (record watched.server.trips { jobs = [] }))
      watched

abbrev picked : Process
picked = matched talking wish sent

abbrev assigned : Process
assigned =
    with_trips [] (on_driver_assigned (trip_deps talking) (2 ∷ []) picked.server.trips).0 picked

abbrev in_phase : Phase → Session
in_phase phase = record { trip = "t1"; conn = 9; phase = phase }

abbrev left : Process
left = with_room (record { hub = assigned.server.hub; sessions = in_phase leaving ∷ [] }) assigned

abbrev taken_out : Process
taken_out =
    with_room
      (record { hub = remove_conn "t1" 9 left.server.hub; sessions = in_phase removed ∷ [] }) left

abbrev closed : Process
closed = with_room (record { hub = taken_out.server.hub; sessions = [] }) taken_out

from_asked : Run talking asked assigned
unfolding serve bearer run_job publish Trips.routes require_auth validate Trips.dispatch
    Trips.handle_request request insert_memory on_ride_requested
from_asked =
    next
      (next (next (next here (Step.serves watches tt refl)) (Step.goroutine [] job [] refl refl))
        (Step.matches [] wish [] refl refl refl))
      (Step.assigns (wish ∷ []) answer [] refl refl refl)

asked_runs : Run talking asked closed
unfolding serve
asked_runs =
    next
      (next
        (next from_asked (Step.moves _ (Moves.fails [] (in_phase reading) [] refl refl refl) refl))
        (Step.moves _ (Moves.removes [] (in_phase leaving) [] refl refl refl) refl))
      (Step.moves _ (Moves.closes [] (in_phase removed) [] refl refl refl) refl)

abbrev first : Run talking start asked
first = next here (Step.serves asks tt refl)

runs : Run talking start closed
runs = Run-trans talking first asked_runs

start-Inv : Inv (trip_deps talking) (system start)
start-Inv = record { keyed = tt; held = tt }

Run-Inv_example : Inv (trip_deps talking) (system closed)
Run-Inv_example = Run-Inv talking memory-IsPostgres runs start-Inv

Run-Later_example : Grows Later IsWellFormed (rows (system asked)) (rows (system closed))
Run-Later_example =
    Run-Later talking memory-IsPostgres asked_runs
      (Run-Inv talking memory-IsPostgres first start-Inv)

Run-Lives_example : Grows Lives Born (rows (system asked)) (rows (system closed))
Run-Lives_example =
    Run-Lives talking memory-IsPostgres asked_runs
      (Run-Inv talking memory-IsPostgres first start-Inv)

Run-IsWellFormed_example : All IsWellFormed (rows (system closed))
Run-IsWellFormed_example = Run-IsWellFormed talking memory-IsPostgres runs start-Inv tt

Run-IsTraced_example : IsTraced talking.pg talking.json (system closed)
Run-IsTraced_example =
    Run-IsTraced talking memory-IsPostgres one_broker-IsBroker (one_of_each-IsJson wanted taken)
      (λ a. (eq_iff a a).1 refl) runs start-Inv
      (record { jobs_traced = tt; ends_traced = tt; log_traced = tt })

start-IsServed : IsServed (room start)
start-IsServed = record {
  reachable = unfold run in run-IsReachable [];
  distinct = tt;
  heard = λ j. unfold run audience in subscribers-run j [];
}

Run-IsServed_example : IsServed (room closed)
Run-IsServed_example = Run-IsServed talking runs start-IsServed

conns-Run_example : closed.server.hub.conns ≡ []
conns-Run_example = conns-Run talking runs start-IsServed refl

-- A driver who reports a location while he is on a ride is among those to be picked again.
returns :
    (serve talking
      (request_to (drivers_at (Drivers.patch_location "d1")) "Bearer t")
      assigned.server).0.drivers.geo.members
    ≡ record { name = "d1"; longitude = 180; latitude = 90 } ∷ []
unfolding serve bearer Drivers.routes require_auth validate handle_update_location
    validate_coordinates on_ride_requested publish
returns = refl
