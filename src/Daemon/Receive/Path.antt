-- ===== src/Daemon/Receive/Path.antt =====
-- A lock command on the command loop of src/owner.rs, and the step relation.
use ulockmgr.Prelude.{
  ℕ, ◌≡◌, refl, false, Option, none, some, inl, inr, arith, List, [], ◌∷◌, Option-cases,
}
use ulockmgr.Prelude.Assoc.{get}
use ulockmgr.IoError.{Result-cases, Errnos}
use ulockmgr.Types.{
  Libc, LockAction, LockParams, set_lock_non_blocking, set_lock_blocking, get_lock_status,
}
use ulockmgr.Kernel.{Kernel}
use ulockmgr.Messages.LockCommand.{LockCommand}
use ulockmgr.Tracker.{TrackerData, contains, track}
use ulockmgr.Daemon.State.{DaemonOwnerInner, clone_arc}
use ulockmgr.Daemon.System.{Main, idle, using, spawning, Task, refused, System, Step, Reach, next}
use ulockmgr.Daemon.System
use ulockmgr.Daemon.Command.{Handled, started, spawn_lock_thread, run_command, handle_lock_command}
use ulockmgr.Daemon.Command

pub data Steps : System → System → Type 0 where
  done : {s : System} → Steps s s
  step : {s t u : System} → Step s t → Steps t u → Steps s u

pub Steps-append : {s t u : System} → Steps s t → Steps t u → Steps s u
Steps-append done q = q
Steps-append (step st p) q = step st (Steps-append p q)

pub Reach-Steps : {s t : System} → Reach s → Steps s t → Reach t
Reach-Steps r done = r
Reach-Steps r (step st p) = Reach-Steps (next r st) p

abbrev pub loop_at : Main → DaemonOwnerInner → List Task → System
loop_at m d ts = record { inner = d; main = m; tasks = ts }

-- The tasks once a lock command is handled.
abbrev pub handled_tasks : Handled → List Task → List Task
handled_tasks (started a t) ts = System.locking a t ∷ ts
handled_tasks (Command.replied _) ts = ts
handled_tasks Command.unstarted ts = ts

-- The number of a new thread is not that of a tracked one.
abbrev pub IsNewThread : Option ℕ → DaemonOwnerInner → Type 0
IsNewThread thread d =
    (a t : ℕ) (g : TrackerData)
    → thread ≡ some t
    → get a d.trackers ≡ some g
    → contains t g.threads ≡ false

clone_arc-IsNewThread :
    (thread : Option ℕ) (a : ℕ) (d : DaemonOwnerInner)
    → IsNewThread thread d
    → IsNewThread thread (clone_arc a d)
unfolding clone_arc
clone_arc-IsNewThread thread a d v b t g e found = v b t g e (ground (arith, found))

spawn_lock_thread-Steps :
    (a : ℕ) (thread : Option ℕ) (d : DaemonOwnerInner) (ts : List Task)
    → IsNewThread thread d
    → Steps (loop_at (spawning a) d ts) (
        loop_at
          (using a)
          (spawn_lock_thread a thread d).1
          (handled_tasks (spawn_lock_thread a thread d).0 ts))
unfolding spawn_lock_thread
spawn_lock_thread-Steps a none d ts v = step (Step.spawn_fails a refl) done
spawn_lock_thread-Steps a (some t) d ts v = elim (Option-cases (get a d.trackers)) [
  | inl e ↦ rw (e, spawn_lock_thread) (step (Step.spawn_fails a refl) done)
  | inr (g, e) ↦ elim (Result-cases (track t g).0) [
    | inl (_, q) ↦
        rw (e, spawn_lock_thread, q) (step (Step.spawns a t g refl e (v a t g refl e) q) done)
    | inr (x, q) ↦
        rw (e, spawn_lock_thread, q)
          (step (Step.spawn_refused a t g refl e q) (step (Step.refused_ends a [] ts refl) done))
  ]
]

module _ (k : Kernel) (c : Libc) (n : Errnos) where
  run_command-Steps :
      (action : LockAction) (a fd : ℕ) (params : LockParams) (thread : Option ℕ)
      (d : DaemonOwnerInner) (w : k.World) (ts : List Task)
      → IsNewThread thread d
      → let (h, d', _) = run_command k c n action a fd params thread d w in
        Steps (loop_at (using a) d ts) (loop_at idle d' (handled_tasks h ts))
  unfolding run_command
  run_command-Steps get_lock_status a fd params thread d w ts v = step (Step.returns a refl) done
  run_command-Steps set_lock_non_blocking a fd params thread d w ts v =
      step (Step.returns a refl) done
  run_command-Steps set_lock_blocking a fd params thread d w ts v = step (Step.clones a refl) (
      Steps-append
        (spawn_lock_thread-Steps a thread (clone_arc a d) ts (clone_arc-IsNewThread thread a d v))
        (step (Step.returns a refl) done))

  pub lock_command-Steps :
      (m : LockCommand) (thread : Option ℕ) (d d' : DaemonOwnerInner) (w w' : k.World) (h : Handled)
      (ts : List Task)
      → IsNewThread thread d
      → handle_lock_command k c n m thread d w ≡ some (h, d', w')
      → Steps (loop_at idle d ts) (loop_at idle d' (handled_tasks h ts))
  unfolding handle_lock_command
  lock_command-Steps m thread d d' w w' h ts v e = elim (Option-cases (get m.id d.descriptors)) [
    | inl unknown ↦
        let same : d' ≡ d = ground (arith, unknown) in
        let left : handled_tasks h ts ≡ ts = ground (arith, unknown) in rw (same, left) done
    | inr (a, found) ↦ elim (Option-cases (get a d.heap)) [
      | inl gone ↦ absurd (ground (arith, found))
      | inr (x, here) ↦
          let r = run_command k c n m.action a x.descriptor m.params thread (clone_arc a d) w in
          let same : d' ≡ r.1 = ground (arith, found, here) in
          let left : h ≡ r.0 = ground (arith, found, here) in
          rw (same, left)
            (step (Step.looks_up m.id a refl found) (
              run_command-Steps m.action a x.descriptor m.params thread (clone_arc a d) w ts
                (clone_arc-IsNewThread thread a d v)))
    ]
  ]
