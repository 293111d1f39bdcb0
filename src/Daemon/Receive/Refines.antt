-- ===== src/Daemon/Receive/Refines.antt =====
-- The match of `owner_receiving_loop` of src/owner.rs on a message, and the step relation.
use ulockmgr.Prelude.{◌<◌, ◌^◌, length, ◌≡◌, refl, some, inl, inr, arith, List, ◌∷◌, Option-cases}
use ulockmgr.IoError.{Errnos, io_cvt}
use ulockmgr.Types.{Libc}
use ulockmgr.Kernel.{Kernel}
use ulockmgr.Messages.Traits.{OwnedFd}
use ulockmgr.Messages.Register
use ulockmgr.Messages.LockCommand
use ulockmgr.Messages.LockCommand.{LockCommand}
use ulockmgr.Messages.Message.{
  Message, ping, interrupt, remove_interrupt, register, unregister, lock_command,
}
use ulockmgr.Daemon.State.{DaemonOwnerInner}
use ulockmgr.Daemon.Handlers.{handle_interrupt_remove, handle_fd_register}
use ulockmgr.Daemon.System.{Main, idle, using, spawning, Task, refused, System, Step, Reach, next}
use ulockmgr.Daemon.System
use ulockmgr.Daemon.Command.{handle_lock_command}
use ulockmgr.Daemon.Command.Answers.{command_answers}
use ulockmgr.Daemon.Registry.{register_answers}
use ulockmgr.Daemon.Safety.{Reach-Inv}
use ulockmgr.Daemon.Receive.{Action, Incoming, dispatch}
use ulockmgr.Daemon.Receive.Path.{
  Reach-Steps, Steps, done, step, loop_at, handled_tasks, IsNewThread, lock_command-Steps,
}

-- The tasks once a message is handled.
abbrev pub tasks_after : Action → List Task → List Task
tasks_after (Action.unregistering _ m) ts = System.unregistering m ∷ ts
tasks_after (Action.locking _ h) ts = handled_tasks h ts
tasks_after Action.refresh ts = ts
tasks_after (Action.reply_unit _ _) ts = ts
tasks_after (Action.reply_id _ _) ts = ts
tasks_after (Action.interrupting _ _) ts = ts

module _ (k : Kernel) (c : Libc) (n : Errnos) where
  dispatch-Steps :
      (i : Incoming) (m : Message) (fd : OwnedFd) (d d' : DaemonOwnerInner) (w w' : k.World)
      (a : Action) (ts : List Task)
      → IsNewThread i.thread d
      → dispatch k c n i m fd d w ≡ some (a, d', w')
      → Steps (loop_at idle d ts) (loop_at idle d' (tasks_after a ts))
  unfolding dispatch
  dispatch-Steps i (ping m) fd d d' w w' a ts v e =
      let same : d' ≡ d = ground arith in
      let left : tasks_after a ts ≡ ts = ground arith in rw (same, left) done
  dispatch-Steps i (interrupt m) fd d d' w w' a ts v e =
      let same : d' ≡ d = ground arith in
      let left : tasks_after a ts ≡ ts = ground arith in rw (same, left) done
  dispatch-Steps i (remove_interrupt m) fd d d' w w' a ts v e =
      let same : d' ≡ (handle_interrupt_remove d m).1 = ground arith in
      let left : tasks_after a ts ≡ ts = ground arith in
      rw (same, left) (step (Step.removes_interrupt m refl) done)
  dispatch-Steps i (register m) fd d d' w w' a ts v e =
      elim (Option-cases (handle_fd_register i.ret i.errno i.handler d m)) [
        | inl stuck ↦ absurd (ground arith)
        | inr ((r, d''), q) ↦
            let same : d' ≡ d'' = ground arith in
            let left : tasks_after a ts ≡ ts = ground arith in
            rw (same, left) (step (Step.registers i.ret i.errno i.handler m refl q) done)
      ]
  dispatch-Steps i (unregister m) fd d d' w w' a ts v e =
      let same : d' ≡ d = ground arith in
      let left : tasks_after a ts ≡ System.unregistering m ∷ ts = ground arith in
      rw (same, left) (step (Step.spawns_unregister m refl) done)
  dispatch-Steps i (lock_command m) fd d d' w w' a ts v e =
      elim (Option-cases (handle_lock_command k c n m i.thread d w)) [
        | inl stuck ↦ absurd (ground arith)
        | inr ((h, d'', w''), q) ↦
            let same : d' ≡ d'' = ground arith in
            let left : tasks_after a ts ≡ handled_tasks h ts = ground arith in
            rw (same, left) (lock_command-Steps k c n m i.thread d d'' w w'' h ts v q)
      ]

  dispatch-total :
      (i : Incoming) (m : Message) (fd : OwnedFd) (d : DaemonOwnerInner) (w : k.World)
      (ts : List Task)
      → Reach (loop_at idle d ts)
      → length d.descriptors < 2 ^ 64
      → (r : Action × DaemonOwnerInner × k.World) × (dispatch k c n i m fd d w ≡ some r)
  unfolding dispatch
  dispatch-total i (ping m) fd d w ts r few = (_, refl)
  dispatch-total i (interrupt m) fd d w ts r few = (_, refl)
  dispatch-total i (remove_interrupt m) fd d w ts r few = (_, refl)
  dispatch-total i (register m) fd d w ts r few =
      let (p, e) = register_answers i.ret i.errno i.handler m d (Reach-Inv r).heap.id_fits few in
      ((Action.reply_id (Register.create_reply fd) (io_cvt n p.0), p.1, w), rw (e, dispatch) refl)
  dispatch-total i (unregister m) fd d w ts r few = (_, refl)
  dispatch-total i (lock_command m) fd d w ts r few =
      let (p, e) = command_answers k c n m i.thread w r in
      ((Action.locking (LockCommand.create_reply fd) p.0, p.1, p.2), rw (e, dispatch) refl)

  -- In every reachable state in which the command loop is idle and fewer than 2^64 files are
  -- registered, any message is handled, whatever the operating system answers; and when no other
  -- thread comes in between, the state and the threads that this leaves are reached by steps of the
  -- threads of the owner process, so that they too are reachable. The number of a new thread is not
  -- that of a tracked one.
  pub dispatch_refines :
      (i : Incoming) (m : Message) (fd : OwnedFd) (d : DaemonOwnerInner) (w : k.World)
      (ts : List Task)
      → Reach (loop_at idle d ts)
      → length d.descriptors < 2 ^ 64
      → IsNewThread i.thread d
      → (r : Action × DaemonOwnerInner × k.World) × (dispatch k c n i m fd d w ≡ some r)
        × Steps (loop_at idle d ts) (loop_at idle r.1 (tasks_after r.0 ts))
        × Reach (loop_at idle r.1 (tasks_after r.0 ts))
  dispatch_refines i m fd d w ts reached few v =
      let (r, e) = dispatch-total i m fd d w ts reached few in
      let path = dispatch-Steps i m fd d r.1 w r.2 r.0 ts v e in
      (r, e, path, Reach-Steps reached path)
