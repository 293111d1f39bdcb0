-- ===== src/Tests/Loops.antt =====
-- The waiting loops, with a backoff that runs out after two pauses.
use ulockmgr.Prelude.{
  ℕ, ◌+◌, ◌≡◌, refl, Bool, true, false, List, [], ◌∷◌, arith, ltb, ◌||◌, not, if◌then◌else◌,
}
use ulockmgr.Backoff.{Backoff}
use ulockmgr.Tracker.{TrackerData, InterruptibleHandle, new_tracker, contains}
use ulockmgr.Tracker.Stop.{enters, leaves, has_left}
use ulockmgr.Tracker.Loops.{Round, is_empty, stop}
use ulockmgr.Tracker.Ends.{all_others, StartsWith, stop_ends, stop_drains}
use ulockmgr.Tracker.Handle.{Look, has_exited, returned, waiting, panicked, AllEqual, stop_one}
use ulockmgr.Tracker.Handle

abbrev pub two_pauses : Backoff
two_pauses = record {
  State = ℕ;
  new = 0;
  spin = λ n. n + 1;
  snooze = λ n. n + 1;
  reset = λ n. 0;
  is_completed = λ n. ltb 1 n;
}

abbrev third_holds : List Bool
third_holds = false ∷ false ∷ true ∷ []

abbrev tracking : TrackerData
tracking = record new_tracker { threads = 8 ∷ 9 ∷ []; new_thread = true }

abbrev pub one_leaves : Round
one_leaves = record { others = leaves 9 ∷ enters 10 ∷ []; failures = 3 }

abbrev other_leaves : Round
other_leaves = record { others = leaves 8 ∷ []; failures = 0 }

all_leave :
    (t : ℕ)
    → contains t (8 ∷ 9 ∷ []) ≡ true
    → has_left t (all_others (one_leaves ∷ other_leaves ∷ [])) ≡ true
unfolding contains has_left
all_leave t h = ground arith

stop_ends_example : (stop two_pauses tracking (one_leaves ∷ other_leaves ∷ [])).ended ≡ true
stop_ends_example = stop_ends two_pauses tracking (one_leaves ∷ other_leaves ∷ []) all_leave

stop_drains_example :
    ((stop two_pauses tracking (one_leaves ∷ other_leaves ∷ [])).ended
      ≡ is_empty (stop two_pauses tracking (one_leaves ∷ other_leaves ∷ [])).tracker.threads)
    × ((stop two_pauses tracking (one_leaves ∷ other_leaves ∷ [])).tracker.can_spawn ≡ false)
    × StartsWith (8 ∷ 9 ∷ []) (stop two_pauses tracking (one_leaves ∷ other_leaves ∷ [])).signals
stop_drains_example = stop_drains two_pauses tracking one_leaves (other_leaves ∷ []) refl

abbrev a_thread : InterruptibleHandle
a_thread = record { thread = 9; exit = 2 }

abbrev alive : Look
alive = record { exited = false; failures = 1 }

abbrev gone : Look
gone = record { exited = true; failures = 0 }

stop_one_example :
    ((Handle.stop two_pauses a_thread 8 (alive ∷ gone ∷ [])).0
      ≡ (if has_exited (alive ∷ gone ∷ []) then returned else waiting))
    × AllEqual 9 (Handle.stop two_pauses a_thread 8 (alive ∷ gone ∷ [])).1
    × ((false || not (is_empty (Handle.stop two_pauses a_thread 8 (alive ∷ gone ∷ [])).1)) ≡ true)
    × (Handle.stop two_pauses a_thread 9 (alive ∷ gone ∷ []) ≡ (panicked, []))
stop_one_example = stop_one two_pauses a_thread 8 alive (gone ∷ []) (λ e. ground (arith, e))
