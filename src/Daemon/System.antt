-- ===== src/Daemon/System.antt =====
-- The threads of an owner process of src/owner.rs, interleaved: the command loop, the thread of
-- each unregistration, and each lock thread, over one `DaemonOwnerInner`.
-- A step is one access to shared state. `main` is where the command loop stands in
-- `handle_lock_command`; each other command that it handles itself is one step. The number of a new
-- thread is not that of a tracked one, since `pthread_t` is unique among the threads that live. A thread that
-- interrupts a lock only reads the state, and has no step.
use ulockmgr.Prelude.{ℕ, ◌≡◌, false, List, [], ◌∷◌, ◌++◌, some}
use ulockmgr.Prelude.Assoc.{get, put}
use ulockmgr.IoError.{IoError, Result, ok, err}
use ulockmgr.Kernel.{SigHandler}
use ulockmgr.Messages.RemoveInterrupt.{RemoveInterrupt}
use ulockmgr.Messages.Register.{Register}
use ulockmgr.Messages.Unregister.{Unregister}
use ulockmgr.Tracker.{TrackerData, contains, track, untrack, forbid_spawn}
use ulockmgr.Daemon.State.{
  FdData, InterruptibleHandle, DaemonOwnerInner, new_inner, try_exit, clone_arc, drop_arc,
}
use ulockmgr.Daemon.Handlers.{
  handle_interrupt_add, handle_interrupt_remove, handle_fd_register, unregister_remove,
}

pub data Main : Type 0 where
  idle : Main
  -- In `handle_lock_command`, with its own clone of the `Arc` at the address.
  using : (address : ℕ) → Main
  -- In `tracker.spawn`, with a second clone in the closure.
  spawning : (address : ℕ) → Main

pub data Task : Type 0 where
  -- `handle_fd_unregister`, from its start.
  unregistering : Unregister → Task
  -- The entry is removed; `tracker.stop` is about to begin.
  stopping : (address : ℕ) → Task
  -- In the loop of `tracker.stop`.
  draining : (address : ℕ) → Task
  -- In `snooze_wait`.
  waiting : (address : ℕ) → Task
  -- A spawned thread that `track` refused, with the closure still to drop.
  refused : (address : ℕ) → Task
  -- In `set_lock_blocking`.
  locking : (address thread : ℕ) → Task
  -- The closure is gone; the `InterruptibleGuard` is still to drop.
  untracking : (address thread : ℕ) → Task

pub record System : Type 0 where
  pub inner : DaemonOwnerInner
  pub main : Main
  pub tasks : List Task

-- The state with the shared part, or the tracker at an address, replaced.
abbrev pub with_tracker : ℕ → TrackerData → DaemonOwnerInner → DaemonOwnerInner
with_tracker a g d = record d { trackers = put a g d.trackers }

pub data Step (s : System) : System → Type 0 where
  -- The command loop.
  registers :
      (ret errno : ℕ) (action : SigHandler) (m : Register) {r : Result ℕ IoError}
      {d : DaemonOwnerInner}
      → s.main ≡ idle
      → handle_fd_register ret errno action s.inner m ≡ some (r, d)
      → Step s (record s { inner = d })
  removes_interrupt :
      (m : RemoveInterrupt)
      → s.main ≡ idle
      → Step s (record s { inner = (handle_interrupt_remove s.inner m).1 })
  spawns_unregister :
      (m : Unregister) → s.main ≡ idle → Step s (record s { tasks = unregistering m ∷ s.tasks })
  looks_up :
      (id a : ℕ)
      → s.main ≡ idle
      → get id s.inner.descriptors ≡ some a
      → Step s (record s { main = using a; inner = clone_arc a s.inner })
  clones :
      (a : ℕ)
      → s.main ≡ using a
      → Step s (record s { main = spawning a; inner = clone_arc a s.inner })
  spawn_fails :
      (a : ℕ)
      → s.main ≡ spawning a
      → Step s (record s { main = using a; inner = drop_arc a s.inner })
  spawn_refused :
      (a t : ℕ) (g : TrackerData) {e : IoError}
      → s.main ≡ spawning a
      → get a s.inner.trackers ≡ some g
      → (track t g).0 ≡ err e
      → Step s (record s { main = using a; tasks = refused a ∷ s.tasks })
  spawns :
      (a t : ℕ) (g : TrackerData)
      → s.main ≡ spawning a
      → get a s.inner.trackers ≡ some g
      → contains t g.threads ≡ false
      → (track t g).0 ≡ ok tt
      → Step s (record s {
        main = using a;
        tasks = locking a t ∷ s.tasks;
        inner = with_tracker a (track t g).1 s.inner;
      })
  returns :
      (a : ℕ) → s.main ≡ using a → Step s (record s { main = idle; inner = drop_arc a s.inner })
  -- An unregistration.
  misses :
      (m : Unregister) (ts us : List Task) {e : IoError}
      → s.tasks ≡ ts ++ unregistering m ∷ us
      → (unregister_remove s.inner m).0 ≡ err e
      → Step s (record s { tasks = ts ++ us })
  removes :
      (m : Unregister) (a : ℕ) (ts us : List Task)
      → s.tasks ≡ ts ++ unregistering m ∷ us
      → (unregister_remove s.inner m).0 ≡ ok a
      → Step s (record s { tasks = ts ++ stopping a ∷ us; inner = (unregister_remove s.inner m).1 })
  forbids :
      (a : ℕ) (g : TrackerData) (ts us : List Task)
      → s.tasks ≡ ts ++ stopping a ∷ us
      → get a s.inner.trackers ≡ some g
      → Step s (record s {
        tasks = ts ++ draining a ∷ us;
        inner = with_tracker a (forbid_spawn g) s.inner;
      })
  drained :
      (a : ℕ) (g : TrackerData) (ts us : List Task)
      → s.tasks ≡ ts ++ draining a ∷ us
      → get a s.inner.trackers ≡ some g
      → g.threads ≡ []
      → Step s (record s { tasks = ts ++ waiting a ∷ us })
  unregistered :
      (a : ℕ) (x : FdData) (ts us : List Task)
      → s.tasks ≡ ts ++ waiting a ∷ us
      → get a s.inner.heap ≡ some x
      → x.strong ≡ 1
      → Step s (record s { tasks = ts ++ us; inner = drop_arc a s.inner })
  -- A lock thread.
  refused_ends :
      (a : ℕ) (ts us : List Task)
      → s.tasks ≡ ts ++ refused a ∷ us
      → Step s (record s { tasks = ts ++ us; inner = drop_arc a s.inner })
  adds_interrupt :
      (a t id : ℕ) (h : InterruptibleHandle) (ts us : List Task) {d : DaemonOwnerInner}
      → s.tasks ≡ ts ++ locking a t ∷ us
      → handle_interrupt_add s.inner h ≡ some (id, d)
      → Step s (record s { inner = d })
  lock_returns :
      (a t : ℕ) (ts us : List Task)
      → s.tasks ≡ ts ++ locking a t ∷ us
      → Step s (record s { tasks = ts ++ untracking a t ∷ us; inner = drop_arc a s.inner })
  untracks :
      (a t : ℕ) (g : TrackerData) (ts us : List Task)
      → s.tasks ≡ ts ++ untracking a t ∷ us
      → get a s.inner.trackers ≡ some g
      → Step s (record s { tasks = ts ++ us; inner = with_tracker a (untrack t g) s.inner })
  -- The thread of `DaemonOwner::start`, at the end of a time-to-live.
  exits : (try_exit s.inner).0 ≡ ok tt → Step s (record s { inner = (try_exit s.inner).1 })

abbrev pub start_system : System
start_system = record { inner = new_inner; main = idle; tasks = [] }

pub data Reach : System → Type 0 where
  here : Reach start_system
  next : {s t : System} → Reach s → Step s t → Reach t
