-- ===== src/Tests/Guards.antt =====
-- A thread that takes a guard of a new tracker.
use ulockmgr.Prelude.{
  ◌+◌, ◌&&◌, ◌||◌, not, ltb, ◌≡◌, refl, true, false, [], ◌∷◌, if◌then◌else◌, arith,
}
use ulockmgr.Tracker.{contains}
use ulockmgr.Tracker.Loops.{stop}
use ulockmgr.Tracker.Stop.{enters, leaves, accesses}
use ulockmgr.Tracker.Order.{view, swaps, tracked_by, accesses_reordered}
use ulockmgr.Tracker.Guard.{
  InterruptibleGuard, Holding, no_guards, GuardStep, GuardReach, unguarded, further,
}
use ulockmgr.Tracker.Guard.Account.{hosts, sharers, given, guard-free, guards_accounted}
use ulockmgr.Tracker.Guard.Nested.{guarded_thread_missed}
use ulockmgr.Tests.Loops.{two_pauses, one_leaves}

abbrev outer : InterruptibleGuard
outer = record { thread = 9; exit = 0 }

abbrev guarded : Holding
guarded = record { state = given 9 no_guards.state; held = outer ∷ []; dropping = [] }

guarded-GuardReach : GuardReach guarded
guarded-GuardReach = further unguarded (
    GuardStep.takes 9 outer (record { thread = 9; exit = 0 }) (given 9 no_guards.state)
      (guard-free 9 no_guards.state refl))

guards_accounted_example :
    ((not (contains 9 guarded.state.tracker.threads) || hosts 9 guarded.held) ≡ true)
    × (sharers 0 guarded.held + sharers 0 guarded.dropping
        ≡ (if ltb 0 guarded.state.next_exit && not (guarded.state.exited 0) then 1 else 0))
guards_accounted_example = guards_accounted 9 0 guarded-GuardReach

guarded_thread_missed_example :
    (h' : Holding) × GuardReach h'
    × (h'.held ≡ outer ∷ [])
    × (h'.state.exited 0 ≡ false)
    × ((stop two_pauses h'.state.tracker (one_leaves ∷ [])).ended ≡ true)
    × ((stop two_pauses h'.state.tracker (one_leaves ∷ [])).signals ≡ [])
guarded_thread_missed_example =
    guarded_thread_missed two_pauses (one_leaves ∷ []) outer guarded-GuardReach refl refl

accesses_reordered_example :
    (view (accesses (enters 8 ∷ leaves 9 ∷ []) (given 9 no_guards.state).tracker)
      ≡ view (accesses (leaves 9 ∷ enters 8 ∷ []) (given 9 no_guards.state).tracker))
    × ((accesses (leaves 9 ∷ enters 8 ∷ []) (given 9 no_guards.state).tracker).can_spawn ≡ true)
    × ((accesses (leaves 9 ∷ enters 8 ∷ []) (given 9 no_guards.state).tracker).new_thread ≡ true)
    × (contains 9 (accesses (leaves 9 ∷ enters 8 ∷ []) (given 9 no_guards.state).tracker).threads
        ≡ tracked_by true 9
            (enters 8 ∷ leaves 9 ∷ [])
            (contains 9 (given 9 no_guards.state).tracker.threads))
accesses_reordered_example =
    accesses_reordered (given 9 no_guards.state).tracker 9
      (swaps [] (enters 8) (leaves 9) [] (λ e. omega (arith, e)))
