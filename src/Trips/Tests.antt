-- ===== src/Trips/Tests.antt =====
-- The operations run on a database in memory, and the theorems at those runs.
use uber.Base.{String, Float, Time, Option, none, some, [], ◌∷◌, ◌≡◌, refl, ok}
use uber.Trips.Model.{Trip, TripStatus, requested, driver_assigned, started, completed}
use uber.Trips.Store.{find}
use uber.Trips.Service.{
  World, publish_completed, get_by_id, new_trip, request, end_check, end_commit, end,
  complete_update, completed_event,
}
use uber.Trips.Ending.{end_ok, end_twice, Charged, ended, rupees}
use uber.Trips.System.{
  System, EndRun, Step, Run, here, next, Inv, rows, Run-Inv, Run-Later, Run-IsWellFormed,
}
use uber.Trips.System
use uber.Trips.Memory.{
  deps, memory, memory-IsPostgres, empty, ride, insert_memory, update_memory, query_memory,
}

-- One row, in a status.
abbrev row : TripStatus → Option String → Option Time → Trip
row s driver at = record {
  id = "t1";
  rider_id = "r1";
  driver_id = driver;
  pickup_lat = 12;
  pickup_lng = 77;
  drop_lat = 13;
  drop_lng = 78;
  fare = none;
  status = s;
  requested_at = some 5;
  started_at = at;
  completed_at = none;
  created_at = 7;
}

abbrev with_row : Trip → World
with_row t = record { db = record { trips = t ∷ []; clock = 7; hidden = 0 }; log = []; jobs = [] }

abbrev waiting : World
waiting = with_row (row requested none none)

abbrev assigned : World
assigned = with_row (row driver_assigned (some "d1") none)

abbrev riding : World
riding = with_row (row started (some "d1") (some 9))

request_adds : (request deps "t1" 5 "r1" ride empty).0.db.trips ≡ row requested none none ∷ []
unfolding request insert_memory new_trip
request_adds = refl

end_charges :
    (end deps "t1" (some 10) 20 riding).1
    ≡ ok (record (row completed (some "d1") (some 9)) { fare = some 170; completed_at = some 20 })
unfolding end update_memory query_memory complete_update
end_charges = refl

abbrev done : Option Float → Trip
done f = record (row completed (some "d1") (some 9)) { fare = f; completed_at = some 20 }

end_ok_example :
    (r : Trip) × (km : Float) × (find memory "t1" riding.db.trips ≡ some r)
    × (r.status ≡ started)
    × Charged deps r (some 10) km
    × (done (some 170) ≡ ended deps r km 20)
    × ((end deps "t1" (some 10) 20 riding).0.jobs
        ≡ publish_completed (completed_event deps r "t1" (rupees deps km) 20) ∷ [])
unfolding end update_memory query_memory complete_update
end_ok_example = end_ok deps memory-IsPostgres "t1" (some 10) 20 riding (done (some 170)) refl

abbrev first_end : World
first_end = (end_commit deps "t1" (some 10) 20 (row started (some "d1") (some 9)) riding).0

end_twice_example :
    (record (done (some 290)) { completed_at = some 21 } ≡ ended deps (done (some 170)) 20 21)
    × ((end_commit deps "t1" (some 20) 21 (row started (some "d1") (some 9)) first_end).0.jobs
        ≡ publish_completed (completed_event deps (row started (some "d1") (some 9)) "t1" 290 21)
          ∷ publish_completed (completed_event deps (row started (some "d1") (some 9)) "t1" 170 20)
          ∷ [])
unfolding end_check end_commit update_memory query_memory complete_update get_by_id
end_twice_example =
    end_twice deps memory-IsPostgres "t1" (some 10) (some 20) 20 21 riding
      (row started (some "d1") (some 9)) (done (some 170))
      (record (done (some 290)) { completed_at = some 21 }) refl refl refl

-- Two requests end the trip: both read it, and then both write.
abbrev underway : Trip
underway = row started (some "d1") (some 9)

abbrev at_start : System
at_start = record { world = riding; ends = [] }

abbrev first_run : EndRun
first_run = record { trip_id = "t1"; dist = some 10; trip = underway }

abbrev second_run : EndRun
second_run = record { trip_id = "t1"; dist = some 20; trip = underway }

abbrev first_read : System
first_read = record { world = riding; ends = first_run ∷ [] }

abbrev both_read : System
both_read = record { world = riding; ends = second_run ∷ first_run ∷ [] }

abbrev first_wrote : System
first_wrote = record { world = first_end; ends = second_run ∷ [] }

abbrev at_end : System
at_end = record { world = (end_commit deps "t1" (some 20) 21 underway first_end).0; ends = [] }

both_end : Run deps at_start at_end
unfolding end_check get_by_id query_memory
both_end =
    next {t = first_wrote}
      (next {t = both_read}
        (next {t = first_read} (next here (System.end_reads "t1" (some 10) underway refl refl))
          (System.end_reads "t1" (some 20) underway refl refl))
        (System.end_writes (second_run ∷ []) first_run [] 20 refl refl))
      (System.end_writes [] second_run [] 21 refl refl)
