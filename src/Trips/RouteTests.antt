-- ===== src/Trips/RouteTests.antt =====
-- The endpoints of trips run on a database in memory, and the theorems at these runs.
use uber.Base.{String, none, some, [], ◌∷◌, ◌++◌, ◌≡◌, refl, arith}
use uber.Http.{json}
use uber.Auth.Tokens.{Claims}
use uber.Auth.Middleware.{require_auth}
use uber.Trips.Model.{Trip, requested, started, completed}
use uber.Trips.Store.{find}
use uber.Trips.Handler.{
  Decoders, error, created, trip, post_request, get_trip, patch_assign, patch_end, handle_request,
  handle_get_by_id, handle_end, dispatch, routes,
}
use uber.Trips.Written.{IsWritten}
use uber.Trips.Routes.{routes_any_user}
use uber.Trips.Refusals.{IsRefusal, routes_refused}
use uber.Trips.Replies.{Answered, routes_200, routes_201}
use uber.Trips.Service.{World, get_by_id, request, end, new_trip, complete_update}
use uber.Trips.Memory.{
  deps, memory, memory-IsPostgres, empty, ride, insert_memory, update_memory, query_memory,
}

-- Bodies that decode to one request each; an empty body is an error.
abbrev bodies : Decoders
bodies = record {
  decode_request = λ b. (ride, none);
  decode_assign = λ b. (record { driver_id = "d1" }, none);
  decode_end = λ b. (record { distance_km = some 10; duration_seconds = none }, some "EOF");
}

abbrev claims_of : String → Claims
claims_of user = record {
  user_id = user;
  email = "a@b.co";
  role = "rider";
  subject = user;
  issued_at = none;
  expires_at = none;
}

abbrev under_way : Trip
under_way = record {
  id = "t1";
  rider_id = "r1";
  driver_id = some "d1";
  pickup_lat = 12;
  pickup_lng = 77;
  drop_lat = 13;
  drop_lng = 78;
  fare = none;
  status = started;
  requested_at = some 5;
  started_at = some 9;
  completed_at = none;
  created_at = 7;
}

abbrev riding : World
riding = record {
  db = record { trips = under_way ∷ []; clock = 7; hidden = 0 };
  log = [];
  jobs = [];
}

abbrev finished_ride : Trip
finished_ride = record {
  id = "t1";
  rider_id = "r1";
  driver_id = some "d1";
  pickup_lat = 12;
  pickup_lng = 77;
  drop_lat = 13;
  drop_lng = 78;
  fare = some 170;
  status = completed;
  requested_at = some 5;
  started_at = some 9;
  completed_at = some 20;
  created_at = 7;
}

ends_200 :
    (routes deps bodies (patch_end "t1") "" 20 [] (some (claims_of "r2")) riding).1
    ≡ json 200 (trip finished_ride)
unfolding routes require_auth dispatch handle_end end update_memory query_memory complete_update
ends_200 = refl

missing_404 :
    (routes deps bodies (get_trip "t9") "" 20 [] (some (claims_of "r2")) riding).1
    ≡ json 404 (error "trip not found")
unfolding routes require_auth dispatch handle_get_by_id get_by_id query_memory
missing_404 = refl

routes_any_user_example :
    routes deps bodies (patch_end "t1") "" 20 [] (some (claims_of "r1")) riding
    ≡ routes deps bodies (patch_end "t1") "" 20 [] (some (claims_of "r2")) riding
routes_any_user_example =
    routes_any_user deps bodies (patch_end "t1") "" 20 [] (claims_of "r1") (claims_of "r2") riding
      (λ e. ground arith)

routes_200_example :
    (r : Trip) × (find memory "t1" riding.db.trips ≡ some r)
    × Answered deps bodies 20 [] (patch_end "t1") r finished_ride
    × IsWritten memory "t1" riding.db.trips finished_ride
        (routes deps bodies (patch_end "t1") "" 20 [] (some (claims_of "r2")) riding).0.db.trips
routes_200_example =
    routes_200 deps bodies memory-IsPostgres (patch_end "t1") "" 20 [] (some (claims_of "r2"))
      riding finished_ride (tt, tt) ends_200

creates_201 :
    (routes deps bodies post_request "t1" 5 [] (some (claims_of "r1")) empty).1
    ≡ json 201 (created "t1" requested)
unfolding routes require_auth dispatch handle_request request insert_memory new_trip
creates_201 = refl

routes_201_example :
    ((bodies.decode_request []).1 ≡ none)
    × (row : Trip) × ((routes deps bodies post_request "t1" 5 []
          (some (claims_of "r1"))
          empty).0.db.trips
        ≡ [] ++ row ∷ [])
    × (row.id ≡ "t1")
    × (row.rider_id ≡ "r1")
    × (row.status ≡ requested)
    × (requested ≡ requested)
routes_201_example =
    routes_201 deps bodies memory-IsPostgres "t1" "t1" requested 5 [] (claims_of "r1") empty refl
      creates_201

-- A trip that is under way cannot be assigned again.
routes_refused_example :
    IsRefusal riding
      (routes deps bodies (patch_assign "t1") "" 20 [] (some (claims_of "r2")) riding)
unfolding find
routes_refused_example =
    routes_refused deps bodies memory-IsPostgres (patch_assign "t1") "" 20 [] (claims_of "r2")
      riding under_way (tt, tt) refl (ground arith)
