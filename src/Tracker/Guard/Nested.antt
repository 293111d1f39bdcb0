-- ===== src/Tracker/Guard/Nested.antt =====
-- Two guards of one thread on one tracker of src/tracker.rs.
use ulockmgr.Prelude.{◌≡◌, refl, true, false, arith, List, [], ◌∷◌}
use ulockmgr.Backoff.{Backoff}
use ulockmgr.Tracker.{TrackerData, insert_thread, untrack, forbid_spawn}
use ulockmgr.Tracker.Stop.{contains-remove_thread}
use ulockmgr.Tracker.Loops.{Round, stop, stop_loop}
use ulockmgr.Tracker.Ends.{none_contained}
use ulockmgr.Tracker.Guard.{
  InterruptibleGuard, untrack_guard, mark_exited, Holding, GuardStep, GuardReach, further,
}
use ulockmgr.Tracker.Guard.Account.{hosts, sharers, given, guard-free, GuardReach-Account}

stop_empty :
    (b : Backoff) (g : TrackerData) (rounds : List Round)
    → g.threads ≡ []
    → ((stop b g rounds).ended ≡ true) × ((stop b g rounds).signals ≡ [])
unfolding stop stop_loop forbid_spawn
stop_empty b g [] e = (rw e refl, refl)
stop_empty b g (r ∷ rs) e = (rw e refl, rw e refl)

-- The thread of a guard takes a second guard, and drops it.
abbrev nested : InterruptibleGuard → Holding → Holding
nested kept h =
    let inner : InterruptibleGuard = record { thread = kept.thread; exit = h.state.next_exit } in
    record h { state = mark_exited inner (untrack_guard inner (given kept.thread h.state)) }

nested-GuardReach :
    (kept : InterruptibleGuard) (h : Holding)
    → GuardReach h
    → h.state.tracker.can_spawn ≡ true
    → GuardReach (nested kept h)
nested-GuardReach kept h r free =
    let inner : InterruptibleGuard = record { thread = kept.thread; exit = h.state.next_exit } in
    further
      (further
        (further r (
          GuardStep.takes kept.thread inner _ (given kept.thread h.state)
            (guard-free kept.thread h.state free)))
        (GuardStep.drops inner [] h.held refl))
      (GuardStep.exits inner [] h.dropping refl)

-- The flag of a guard in scope is unset.
in_scope :
    (kept : InterruptibleGuard) (h : Holding)
    → GuardReach h
    → h.held ≡ kept ∷ []
    → h.state.exited kept.exit ≡ false
unfolding sharers
in_scope kept h r alone =
    let v = GuardReach-Account r in
    let one : sharers kept.exit h.held ≡ 1 = rw alone (ground arith) in
    ground (arith, one, v.fresh kept.exit, v.flagged kept.exit)

untracked :
    (kept : InterruptibleGuard) (h : Holding)
    → GuardReach h
    → h.state.tracker.can_spawn ≡ true
    → h.held ≡ kept ∷ []
    → (nested kept h).state.tracker.threads ≡ []
unfolding hosts untrack_guard untrack mark_exited
untracked kept h r free alone =
    let v = GuardReach-Account (nested-GuardReach kept h r free) in
    none_contained (nested kept h).state.tracker.threads λ t.
      let hosted = rw alone at (v.hosted t) in
      ground (
        arith,
        hosted,
        contains-remove_thread t kept.thread (insert_thread kept.thread h.state.tracker.threads),
      )

-- A thread that is the only one with a guard in scope, and that takes a second guard and drops it, is no
-- longer tracked, though its first guard is still in scope: then `stop` ends without an interrupt,
-- whatever other threads do.
pub guarded_thread_missed :
    (b : Backoff) (rounds : List Round) (kept : InterruptibleGuard) {h : Holding}
    → GuardReach h
    → h.state.tracker.can_spawn ≡ true
    → h.held ≡ kept ∷ []
    → (h' : Holding) × GuardReach h'
      × (h'.held ≡ kept ∷ [])
      × (h'.state.exited kept.exit ≡ false)
      × ((stop b h'.state.tracker rounds).ended ≡ true)
      × ((stop b h'.state.tracker rounds).signals ≡ [])
guarded_thread_missed b rounds kept {h} r free alone =
    let r' = nested-GuardReach kept h r free in
    let (ends, silent) =
      stop_empty b (nested kept h).state.tracker rounds (untracked kept h r free alone) in
    (nested kept h, r', alone, in_scope kept (nested kept h) r' alone, ends, silent)
