-- ===== src/Daemon/Threads/Quiet.antt =====
-- What `tracker.stop` has done when `handle_fd_unregister` of src/owner.rs goes on to wait for the
-- last `Arc`.
use ulockmgr.Prelude.{ℕ, ◌+◌, ◌<◌, ◌≡◌, ap, arith, List, ◌∷◌, ◌++◌}
use ulockmgr.Daemon.System.{Task, waiting, System, Reach}
use ulockmgr.Daemon.Invariant.{mapped}
use ulockmgr.Daemon.Threads.Defs.{tally, guarded, ending, emptied, IsClosed, IsTracked}
use ulockmgr.Daemon.Threads.Weaken.{tally-middle}
use ulockmgr.Daemon.Threads.Counts.{emptied-le-closing}
use ulockmgr.Daemon.Threads.Steps.{Reach-Tracked}

-- In every reachable state in which an unregistration has left `stop` and waits for the last `Arc`
-- of a file, the file's tracker takes no more threads, no lock thread of the file is left, neither
-- working nor about to leave the tracker, the file is not in the descriptor map, and no other
-- unregistration has it.
pub waiting_alone :
    {s : System} (a u : ℕ) (ts us : List Task)
    → Reach s
    → s.tasks ≡ ts ++ waiting a ∷ us
    → IsClosed a s.inner.trackers
      × (tally (guarded a u) s.tasks ≡ 0)
      × (mapped a s.inner.descriptors ≡ 0)
      × (tally (ending a) (ts ++ us) ≡ 0)
waiting_alone {s} a u ts us r e = (
  w.closed a (omega (arith, seen, emptied-le-closing a s.tasks)),
  omega (arith, w.exact a u, w.empty a u seen),
  omega (arith, w.single a, ends),
  omega (arith, w.single a, ends),
)
  where
    w : IsTracked s
    w = Reach-Tracked r

    seen : 0 < tally (emptied a) s.tasks
    seen = ground (arith, ap (tally (emptied a)) e, tally-middle (emptied a) (waiting a) ts us)

    ends : tally (ending a) s.tasks ≡ tally (ending a) (ts ++ us) + 1
    ends = ground (arith, ap (tally (ending a)) e, tally-middle (ending a) (waiting a) ts us)
