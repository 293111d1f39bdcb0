-- ===== src/Tracker/Loops.antt =====
-- The loops of `InterruptibleTracker::stop` and `InterruptibleHandle::stop` of src/tracker.rs.
-- What other threads do while a loop has let go of the mutex is given for each round, with how often
-- `try_lock` fails before it has the mutex again.

use ulockmgr.Prelude.{
  ℕ, zero, suc, Bool, true, false, List, [], ◌∷◌, ◌++◌, ◌||◌, ◌&&◌, not, if◌then◌else◌,
}
use ulockmgr.Backoff.{Backoff}
use ulockmgr.Tracker.{TrackerData, forbid_spawn}
use ulockmgr.Tracker.Stop.{Access, accesses}

pub record Round : Type 0 where
  pub others : List Access
  pub failures : ℕ

-- What a loop leaves: whether it has ended, the threads that were sent SIGUSR1 in each round that
-- sends any, oldest first, and the data.
pub record Stopped : Type 0 where
  pub ended : Bool
  pub signals : List (List ℕ)
  pub tracker : TrackerData

abbrev pub is_empty : List ℕ → Bool
is_empty [] = true
is_empty (_ ∷ _) = false

module _ (b : Backoff) where
  open b use {State, new, snooze, reset, is_completed}

  -- The inner loop: more snoozes while `try_lock` fails, until the backoff has run out.
  unfoldable pub relock : State → ℕ → State
  relock s zero = s
  relock s (suc failures) = elim (is_completed s) [ true ↦ s | false ↦ relock (snooze s) failures ]

  -- The backoff and the flag `snooze_interrupt_done` of a round, once a new thread has reset them, and
  -- those of the next round.
  abbrev pub backoff : State → TrackerData → State
  backoff s g = if g.new_thread then reset s else s

  abbrev pub interrupted : Bool → TrackerData → Bool
  interrupted done g = not g.new_thread && done

  abbrev pub next_backoff : State → TrackerData → Round → State
  next_backoff s g r =
      if is_completed (backoff s g) then backoff s g else relock (snooze (backoff s g)) r.failures

  abbrev pub next_interrupted : State → Bool → TrackerData → Bool
  next_interrupted s done g = not (is_completed (backoff s g)) || interrupted done g

  -- The data after a round, when the mutex is held again.
  abbrev pub after_round : TrackerData → Round → TrackerData
  after_round g r = accesses r.others (record g { new_thread = false })

  -- The loop of `stop`. Without further rounds it waits.
  unfoldable pub stop_loop : State → Bool → TrackerData → List Round → Stopped
  stop_loop s done g [] = record { ended = is_empty g.threads; signals = []; tracker = g }
  stop_loop s done g (r ∷ rs) =
      let rest = stop_loop (next_backoff s g r) (next_interrupted s done g) (after_round g r) rs in
      if is_empty g.threads
      then record { ended = true; signals = []; tracker = g }
      else record rest {
        signals =
            (if is_completed (backoff s g) || not (interrupted done g) then g.threads ∷ [] else [])
            ++ rest.signals;
      }

  -- `InterruptibleTracker::stop`
  unfoldable pub stop : TrackerData → List Round → Stopped
  stop g rounds = stop_loop new false (forbid_spawn g) rounds
