-- ===== src/Daemon/Threads/Steps.antt =====
-- The threads and the trackers of src/owner.rs under every step of the owner process.
use ulockmgr.Prelude.{ℕ, ◌≡◌, refl, some, inl, inr, arith, List}
use ulockmgr.Prelude.Assoc.{Assoc, get}
use ulockmgr.IoError.{Result, IoError}
use ulockmgr.Kernel.{SigHandler}
use ulockmgr.Messages.RemoveInterrupt.{RemoveInterrupt}
use ulockmgr.Messages.Register.{Register}
use ulockmgr.Messages.Unregister.{Unregister}
use ulockmgr.Tracker.{TrackerData}
use ulockmgr.Daemon.State.{
  DaemonOwnerInner, InterruptibleHandle, clone_arc, drop_arc, try_exit, new_arc,
}
use ulockmgr.Daemon.Handlers.{
  handle_interrupt_add, handle_interrupt_remove, insert_descriptor, handle_fd_register,
  unregister_remove,
}
use ulockmgr.Daemon.System.{
  Task, unregistering, waiting, refused, locking, untracking, System, Step, Reach, here, next,
  start_system,
}
use ulockmgr.Daemon.Invariant.{
  mapped, holders, Inv, handle_fd_register-cases, entered, mapped-unregister_remove,
}
use ulockmgr.Daemon.Safety.{Reach-Inv}
use ulockmgr.Daemon.Threads.Defs.{tally, Tracked, IsTracked}
use ulockmgr.Daemon.Threads.Weaken.{
  Weakens, Weakens-refl, Weakens-add, Weakens-drop, Weakens-turn, Tracked-weaken,
}
use ulockmgr.Daemon.Threads.Special.{
  registered, forbidden, seen_empty, guard_made, guard_dropped, taken,
}
use ulockmgr.Daemon.Threads.Counts.{ending-le-hold}

-- The parts of the state that the threads look at are left alone.
abbrev Same : DaemonOwnerInner → DaemonOwnerInner → Type 0
Same d d' =
    (d'.next_address ≡ d.next_address)
    × (d'.trackers ≡ d.trackers)
    × (d'.descriptors ≡ d.descriptors)

clone_arc-Same : (a : ℕ) (d : DaemonOwnerInner) → Same d (clone_arc a d)
unfolding clone_arc
clone_arc-Same a d = ground arith

drop_arc-Same : (a : ℕ) (d : DaemonOwnerInner) → Same d (drop_arc a d)
unfolding drop_arc
drop_arc-Same a d = ground arith

try_exit-Same : (d : DaemonOwnerInner) → Same d (try_exit d).1
unfolding try_exit
try_exit-Same d = ground arith

handle_interrupt_remove-Same :
    (m : RemoveInterrupt) (d : DaemonOwnerInner) → Same d (handle_interrupt_remove d m).1
unfolding handle_interrupt_remove
handle_interrupt_remove-Same m d = ground arith

handle_interrupt_add-Same :
    (h : InterruptibleHandle) (id : ℕ) (d d' : DaemonOwnerInner)
    → handle_interrupt_add d h ≡ some (id, d')
    → Same d d'
unfolding handle_interrupt_add
handle_interrupt_add-Same h id d d' e = ground arith

unregister_remove-keeps :
    (m : Unregister) (d : DaemonOwnerInner)
    → ((unregister_remove d m).1.next_address ≡ d.next_address)
      × ((unregister_remove d m).1.trackers ≡ d.trackers)
unfolding unregister_remove
unregister_remove-keeps m d = ground arith

insert_descriptor-keeps :
    (a id : ℕ) (d d' : DaemonOwnerInner)
    → insert_descriptor a d ≡ some (id, d')
    → (d'.next_address ≡ d.next_address) × (d'.trackers ≡ d.trackers)
unfolding insert_descriptor
insert_descriptor-keeps a id d d' e = ground arith

-- A step that leaves the trackers alone.
keeps :
    {n n' : ℕ} {m m' : Assoc TrackerData} {ids ids' : Assoc ℕ} {tasks tasks' : List Task}
    → (n' ≡ n) × (m' ≡ m) × (ids' ≡ ids)
    → Weakens tasks tasks'
    → Tracked n m ids tasks
    → Tracked n' m' ids' tasks'
keeps (n, m, ids) w v = rw (n, m, ids) (Tracked-weaken w v)

registers-Tracked :
    (ret errno : ℕ) (action : SigHandler) (m : Register) (r : Result ℕ IoError) (s : System)
    (d : DaemonOwnerInner)
    → handle_fd_register ret errno action s.inner m ≡ some (r, d)
    → Inv s
    → IsTracked s
    → Tracked d.next_address d.trackers d.descriptors s.tasks
unfolding new_arc
registers-Tracked ret errno action m r s d done v w =
    elim (handle_fd_register-cases ret errno action m r s.inner d done) [
      | inl (e, _, same) ↦ rw same w
      | inr (id, _, unlocked, inserted) ↦
          let (_, _, _, _, ids) = entered m.fd id s.inner d v.heap unlocked inserted in
          let unheld : holders s.inner.next_address s ≡ 0 =
            ground (arith, v.counted s.inner.next_address, v.heap.fresh s.inner.next_address) in
          let (n, trackers) = insert_descriptor-keeps _ id _ d inserted in
          rw (n, trackers, ids)
            (registered w id (omega (arith, unheld))
              (omega (arith, unheld, ending-le-hold s.inner.next_address s.tasks)))
    ]

pub Step-Tracked : {s t : System} → Step s t → Inv s → IsTracked s → IsTracked t
Step-Tracked {s} (Step.registers ret errno action m {r} {d} at_idle done) v w =
    registers-Tracked ret errno action m r s d done v w
Step-Tracked {s} (Step.removes_interrupt m at_idle) v w =
    keeps (handle_interrupt_remove-Same m s.inner) (Weakens-refl s.tasks) w
Step-Tracked {s} (Step.spawns_unregister m at_idle) v w =
    Tracked-weaken
      (Weakens-add (unregistering m) s.tasks (λ a u. refl) (λ a. refl) (λ a. refl) (λ a. refl)) w
Step-Tracked {s} (Step.looks_up id a at_idle found) v w =
    keeps (clone_arc-Same a s.inner) (Weakens-refl s.tasks) w
Step-Tracked {s} (Step.clones a at_using) v w =
    keeps (clone_arc-Same a s.inner) (Weakens-refl s.tasks) w
Step-Tracked {s} (Step.spawn_fails a at_spawning) v w =
    keeps (drop_arc-Same a s.inner) (Weakens-refl s.tasks) w
Step-Tracked {s} (Step.spawn_refused a t g at_spawning tracker failed) v w =
    Tracked-weaken
      (Weakens-add (refused a) s.tasks (λ b u. refl) (λ b. refl) (λ b. refl) (λ b. refl)) w
Step-Tracked {s} (Step.spawns a t g at_spawning tracker fresh tracked) v w =
    guard_made w a t g tracker fresh tracked
Step-Tracked {s} (Step.returns a at_using) v w =
    keeps (drop_arc-Same a s.inner) (Weakens-refl s.tasks) w
Step-Tracked {s} (Step.misses m ts us at_start failed) v w =
    Tracked-weaken (Weakens-drop (unregistering m) ts us s.tasks at_start (λ a u. refl)) w
Step-Tracked {s} (Step.removes m a ts us at_start removed) v w =
    let (n, trackers) = unregister_remove-keeps m s.inner in
    rw (n, trackers)
      (taken w a (unregister_remove s.inner m).1.descriptors m ts us at_start
        (λ b. (mapped-unregister_remove m a b s.inner v.heap removed).0))
Step-Tracked {s} (Step.forbids a g ts us at_stopping tracker) v w =
    forbidden w a g ts us at_stopping tracker
Step-Tracked {s} (Step.drained a g ts us at_draining tracker empty) v w =
    seen_empty w a g ts us at_draining tracker empty
Step-Tracked {s} (Step.unregistered a x ts us at_waiting found last) v w =
    keeps (drop_arc-Same a s.inner)
      (Weakens-drop (waiting a) ts us s.tasks at_waiting (λ b u. refl)) w
Step-Tracked {s} (Step.refused_ends a ts us at_refused) v w =
    keeps (drop_arc-Same a s.inner)
      (Weakens-drop (refused a) ts us s.tasks at_refused (λ b u. refl)) w
Step-Tracked {s} (Step.adds_interrupt a t id h ts us {d} at_locking done) v w =
    keeps (handle_interrupt_add-Same h id s.inner d done) (Weakens-refl s.tasks) w
Step-Tracked {s} (Step.lock_returns a t ts us at_locking) v w =
    keeps (drop_arc-Same a s.inner)
      (Weakens-turn (locking a t) (untracking a t) ts us s.tasks at_locking (λ b u. refl)
        (λ b. omega arith) (λ b. omega arith) (λ b. omega arith))
      w
Step-Tracked {s} (Step.untracks a t g ts us at_untracking tracker) v w =
    guard_dropped w a t g ts us at_untracking tracker
Step-Tracked {s} (Step.exits done) v w = keeps (try_exit-Same s.inner) (Weakens-refl s.tasks) w

start-Tracked : IsTracked start_system
unfolding tally mapped get
start-Tracked = record {
  fresh = λ a le. refl;
  there = λ a lt. absurd (omega arith);
  exact = λ a u. refl;
  single = λ a. omega arith;
  closed = λ a h. absurd (omega arith);
  empty = λ a u h. refl;
}

pub Reach-Tracked : {s : System} → Reach s → IsTracked s
Reach-Tracked here = start-Tracked
Reach-Tracked (next r st) = Step-Tracked st (Reach-Inv r) (Reach-Tracked r)
