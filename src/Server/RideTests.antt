-- ===== src/Server/RideTests.antt =====
-- The run of Server.Ride on memory.
use uber.Base.{[], ◌≡◌, refl}
use text.Mathlib.TextEquality.{eq_iff}
use uber.Kafka.{publish}
use uber.Auth.Middleware.{bearer, require_auth}
use uber.Auth.Tokens.{validate}
use uber.Matching.Dispatch.{on_ride_requested}
use uber.Matching.Memory.{one_of_each-IsJson, one_broker-IsBroker}
use uber.Trips.Handler as Trips
use uber.Trips.Memory.{memory-IsPostgres, insert_memory}
use uber.Trips.Service.{run_job, on_driver_assigned, request}
use uber.Server.Memory.{wanted, taken, talking, start, asks}
use uber.Server.Router.{serve}
use uber.Trips.System.{rows}
use uber.Base.{inl, some}
use uber.Http.{json}
use uber.Auth.Tokens.{Claims}
use uber.Auth.OneToken.{one_claims}
use uber.Auth.Middleware.{add_claims}
use uber.Redis.{Location, IsMember}
use uber.Redis.Everywhere.{everywhere-IsRedis}
use uber.Trips.Model.{Trip, requested, driver_assigned}
use uber.Trips.Store.{find}
use uber.Trips.Handler.{Body}
use uber.Trips.Memory.{update_memory}
use uber.Server.Model.{trip}
use uber.Server.Booking.{AllAnswer, announced}
use uber.Server.Ride.{wanting, claims_of, ride-Run}
use uber.Server.Process.{Process, Run, system, answered}

abbrev rider : Claims
rider = one_claims "rider"

held : claims_of talking asks ≡ some rider
unfolding bearer add_claims validate
held = refl

answered_201 :
    (serve talking (wanting talking asks) start.server).1
    ≡ json 201 (trip (Body.created "t1" requested))
unfolding serve bearer Trips.routes require_auth validate Trips.dispatch Trips.handle_request
    request insert_memory
answered_201 = refl

answers : AllAnswer talking wanted (announced talking wanted [] (answered talking asks start))
unfolding on_ride_requested on_driver_assigned publish update_memory serve bearer Trips.routes
    require_auth validate Trips.dispatch Trips.handle_request request insert_memory run_job
answers = record {
  matching = λ bytes sent. refl;
  assignment = λ bytes value driver sent named. refl;
}

ride-Run_example :
    (p' : Process) × Run talking start p'
    × (x : Location) × IsMember x start.server.drivers.geo.members
    × (row : Trip) × (find talking.pg "t1" (rows (system p')) ≡ some row)
    × (row.rider_id ≡ "u1")
    × (row.driver_id ≡ some (talking.pg.uuid x.name))
    × (row.status ≡ driver_assigned)
unfolding serve publish
ride-Run_example =
    ride-Run talking memory-IsPostgres (λ a. (eq_iff a a).1 refl) one_broker-IsBroker
      everywhere-IsRedis (one_of_each-IsJson wanted taken) asks start rider "t1" requested
      (record { name = "d1"; longitude = 77; latitude = 12 }) tt held answered_201 (inl refl) refl
      refl answers
