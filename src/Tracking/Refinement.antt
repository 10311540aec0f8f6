-- ===== src/Tracking/Refinement.antt =====
-- The hub implements a table of subscriber lists, for any sequence of arrivals and departures.
use text.Mathlib.Text.{◌==◌}
use text.Mathlib.TextEquality.{eq_iff}
use uber.Base.{ℕ, String, List, [], ◌∷◌, ◌++◌, ◌≡◌, refl, if◌then◌else◌, arith, lookup}
use uber.Tracking.Hub.{Hub, Conn, new_hub, connect, remove_conn, subscribers}
use uber.Tracking.Sound.{IsSound, HasNoEmpty, new_hub-IsSound, new_hub-HasNoEmpty}
use uber.Tracking.Connect.{connect-IsSound, subscribers-connect, connect-HasNoEmpty}
use uber.Tracking.Remove.{
  erase, remove_conn-IsSound, subscribers-remove_conn, remove_conn-HasNoEmpty,
}

-- A client comes to a trip, where an append leaves so many cells spare, or goes.
pub data Event : Type 0 where
  comes : (spare : ℕ) → String → Conn → Event
  goes : String → Conn → Event

-- The hub after one event, and after many, the last of them first.
unfoldable pub step : Event → Hub → Hub
step (comes spare trip c) h = connect spare trip c h
step (goes trip c) h = remove_conn trip c h

unfoldable pub run : List Event → Hub
run [] = new_hub
run (e ∷ es) = step e (run es)

-- The specification: the subscribers of one trip.
unfoldable pub audience : String → List Event → List Conn
audience j [] = []
audience j (comes spare trip c ∷ es) =
    let before = audience j es in if trip == j then before ++ c ∷ [] else before
audience j (goes trip c ∷ es) =
    let before = audience j es in if trip == j then erase c before else before

pub record IsReachable (h : Hub) : Type 0 where
  pub sound : IsSound h
  pub busy : HasNoEmpty h

step-IsReachable : (e : Event) (h : Hub) → IsReachable h → IsReachable (step e h)
unfolding step
step-IsReachable (comes spare trip c) h r = record {
  sound = connect-IsSound trip h r.sound spare c;
  busy = connect-HasNoEmpty trip h r.sound spare c r.busy;
}
step-IsReachable (goes trip c) h r = record {
  sound = remove_conn-IsSound trip c h r.sound;
  busy = remove_conn-HasNoEmpty trip c h r.sound r.busy;
}

-- After any arrivals and departures each trip has an array of its own, and no trip is kept without
-- a subscriber.
pub run-IsReachable : (es : List Event) → IsReachable (run es)
unfolding run
run-IsReachable [] = record { sound = new_hub-IsSound; busy = new_hub-HasNoEmpty }
run-IsReachable (e ∷ es) = step-IsReachable e (run es) (run-IsReachable es)

-- After any arrivals and departures the hub's subscribers of a trip are those of the
-- specification: who came and did not go, in the order of arrival. How much room the appends leave
-- does not matter.
pub subscribers-run : (j : String) (es : List Event) → subscribers j (run es) ≡ audience j es
unfolding run audience step
subscribers-run j [] = unfold subscribers new_hub lookup in refl
subscribers-run j (comes spare trip c ∷ es) = ground (
  arith,
  subscribers-connect trip (run es) (run-IsReachable es).sound spare c j,
  subscribers-run j es,
  subscribers-run trip es,
  eq_iff trip j,
)
subscribers-run j (goes trip c ∷ es) = ground (
  arith,
  subscribers-remove_conn trip c (run es) (run-IsReachable es).sound j,
  subscribers-run j es,
  subscribers-run trip es,
  eq_iff trip j,
)
