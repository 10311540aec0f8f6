-- ===== src/Tracking/Tests.antt =====
-- The hub run on a few clients, and the theorems at these runs.
use uber.Base.{List, [], ◌∷◌, ◌++◌, ◌≡◌, refl, lookup, insert}
use uber.Tracking.Hub.{
  new_hub, snapshot, connect, remove_conn, subscribers, broadcast_from, index_of,
}
use uber.Tracking.Broadcast.{replicate, broadcast_skips}
use uber.Tracking.Refinement.{
  Event, comes, goes, run, step, audience, run-IsReachable, subscribers-run,
}

-- Three clients of one trip, and one of another. The array grows at the first and the second.
abbrev arrivals : List Event
arrivals = comes 0 "t1" 13 ∷ comes 5 "t2" 21 ∷ comes 2 "t1" 12 ∷ comes 0 "t1" 11 ∷ []

three : subscribers "t1" (run arrivals) ≡ 11 ∷ 12 ∷ 13 ∷ []
unfolding subscribers run step new_hub connect lookup insert
three = refl

two_left : subscribers "t1" (run (goes "t1" 12 ∷ arrivals)) ≡ 11 ∷ 13 ∷ []
unfolding subscribers run step new_hub connect remove_conn lookup insert
two_left = refl

all_gone : (run (goes "t1" 12 ∷ comes 0 "t1" 12 ∷ [])).conns ≡ []
unfolding run step new_hub connect remove_conn lookup insert
all_gone = refl

subscribers-run_example : subscribers "t1" (run arrivals) ≡ audience "t1" arrivals
subscribers-run_example = subscribers-run "t1" arrivals

-- 11 has had its turn and leaves: 12 is passed over, and 13 is written to twice.
broadcast_skips_example :
    broadcast_from
      (snapshot "t1" (run arrivals))
      0
      (replicate 1 (run arrivals) ++ replicate 2 (remove_conn "t1" 11 (run arrivals)))
    ≡ 11 ∷ 13 ∷ 13 ∷ []
unfolding index_of
broadcast_skips_example =
    broadcast_skips "t1" (run arrivals) (run-IsReachable arrivals).sound 11 12 [] [] (13 ∷ []) refl
      three
