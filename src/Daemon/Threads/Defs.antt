-- ===== src/Daemon/Threads/Defs.antt =====
-- What ties the threads of an owner process to the trackers and the descriptor map.
use ulockmgr.Prelude.{
  ℕ, ◌+◌, ◌≤◌, ◌<◌, ◌≡◌, false, some, none, List, [], ◌∷◌, ◌==◌, ◌&&◌, if◌then◌else◌,
}
use ulockmgr.Prelude.Assoc.{Assoc, get}
use ulockmgr.Tracker.{TrackerData, contains}
use ulockmgr.Daemon.System.{
  Task, unregistering, stopping, draining, waiting, refused, locking, untracking, System,
}
use ulockmgr.Daemon.Invariant.{mapped, one_if}

-- A count over the tasks.
unfoldable pub tally : (Task → ℕ) → List Task → ℕ
tally f [] = 0
tally f (t ∷ ts) = f t + tally f ts

-- Whether a task is the given thread of the given file, with its `InterruptibleGuard`.
abbrev pub guarded : ℕ → ℕ → Task → ℕ
guarded a u (locking b t) = if b == a && t == u then 1 else 0
guarded a u (untracking b t) = if b == a && t == u then 1 else 0
guarded a u (unregistering _) = 0
guarded a u (stopping _) = 0
guarded a u (draining _) = 0
guarded a u (waiting _) = 0
guarded a u (refused _) = 0

-- Whether a task unregisters the file at an address; whether it has closed its tracker; and whether
-- it has seen it empty.
abbrev pub ending : ℕ → Task → ℕ
ending a (stopping b) = one_if b a
ending a (draining b) = one_if b a
ending a (waiting b) = one_if b a
ending a (unregistering _) = 0
ending a (refused _) = 0
ending a (locking _ _) = 0
ending a (untracking _ _) = 0

abbrev pub closing : ℕ → Task → ℕ
closing a (draining b) = one_if b a
closing a (waiting b) = one_if b a
closing a (stopping _) = 0
closing a (unregistering _) = 0
closing a (refused _) = 0
closing a (locking _ _) = 0
closing a (untracking _ _) = 0

abbrev pub emptied : ℕ → Task → ℕ
emptied a (waiting b) = one_if b a
emptied a (stopping _) = 0
emptied a (draining _) = 0
emptied a (unregistering _) = 0
emptied a (refused _) = 0
emptied a (locking _ _) = 0
emptied a (untracking _ _) = 0

-- Whether a thread is in the tracker at an address, and whether this may not take any more.
abbrev pub listed : ℕ → ℕ → Assoc TrackerData → ℕ
listed a u m = elim (get a m) [ none ↦ 0 | some g ↦ if contains u g.threads then 1 else 0 ]

abbrev pub IsClosed : ℕ → Assoc TrackerData → Type 0
IsClosed a m = (g : TrackerData) × (get a m ≡ some g) × (g.can_spawn ≡ false)

-- The parts of the state that the threads share with the trackers.
pub record Tracked (next_address : ℕ) (trackers : Assoc TrackerData) (descriptors : Assoc ℕ)
    (tasks : List Task) : Type 0 where
  pub fresh : (a : ℕ) → next_address ≤ a → get a trackers ≡ none
  pub there : (a : ℕ) → a < next_address → (g : TrackerData) × (get a trackers ≡ some g)
  -- Each tracker holds the threads that have a guard, and each once.
  pub exact : (a u : ℕ) → tally (guarded a u) tasks ≡ listed a u trackers
  -- A file stands in the map, or is being unregistered, and then once.
  pub single : (a : ℕ) → mapped a descriptors + tally (ending a) tasks ≤ 1
  pub closed : (a : ℕ) → 0 < tally (closing a) tasks → IsClosed a trackers
  pub empty : (a u : ℕ) → 0 < tally (emptied a) tasks → listed a u trackers ≡ 0

abbrev pub IsTracked : System → Type 0
IsTracked s = Tracked s.inner.next_address s.inner.trackers s.inner.descriptors s.tasks
