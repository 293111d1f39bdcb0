-- ===== src/Tracker.antt =====
-- src/tracker.rs: the threads that can be interrupted.
-- `RawInterruptibleTracker` is a mutex over `TrackerData`: each method below is one critical
-- section. A notification of the condition variable only makes a waiter look again.
pub mod Stop
pub mod Loops
pub mod Ends
pub mod Handle
pub mod Guard
pub mod Order
use ulockmgr.Prelude.{ℕ, Bool, true, false, List, [], ◌∷◌, ◌==◌, ◌||◌, if◌then◌else◌}
use ulockmgr.IoError.{IoError, custom, other, Result, ok, err}

-- `RawInterruptibleTrackerData`. A thread is its pthread_t.
pub record TrackerData : Type 0 where
  pub can_spawn : Bool
  pub new_thread : Bool
  pub threads : List ℕ

-- `exit` is the address of the shared flag that says that the thread has ended.
pub record InterruptibleHandle : Type 0 where
  pub thread : ℕ
  pub exit : ℕ

-- The data that `InterruptibleTracker::new` makes.
abbrev pub new_tracker : TrackerData
new_tracker = record { can_spawn = true; new_thread = false; threads = [] }

unfoldable pub contains : ℕ → List ℕ → Bool
contains t [] = false
contains t (x ∷ xs) = (x == t) || contains t xs

-- `HashSet::insert` and `HashSet::remove`
unfoldable pub insert_thread : ℕ → List ℕ → List ℕ
insert_thread t ts = if contains t ts then ts else t ∷ ts

unfoldable pub remove_thread : ℕ → List ℕ → List ℕ
remove_thread t [] = []
remove_thread t (x ∷ xs) = let rest = remove_thread t xs in if x == t then rest else x ∷ rest

unfoldable pub track : ℕ → TrackerData → Result (Unit {0}) IoError × TrackerData
track thread g =
    if g.can_spawn
    then (ok tt, record g { threads = insert_thread thread g.threads; new_thread = true })
    else (err (custom other), g)

unfoldable pub untrack : ℕ → TrackerData → TrackerData
untrack thread g = record g { threads = remove_thread thread g.threads }

-- `stop` before its loop: no thread may be spawned any more.
unfoldable pub forbid_spawn : TrackerData → TrackerData
forbid_spawn g = record g { can_spawn = false }
