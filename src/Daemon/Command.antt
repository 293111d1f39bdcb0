-- ===== src/Daemon/Command.antt =====
-- `handle_lock_command` of src/owner.rs from its lookup to its end, with nothing in between:
-- `Daemon.System` has its steps where other threads come between them.
pub mod Answers
use ulockmgr.Prelude.{ℕ, Option, none, some}
use ulockmgr.Prelude.Assoc.{get, put}
use ulockmgr.IoError.{ok, err, custom, not_found, Errnos, io_cvt}
use ulockmgr.Types.{
  Libc, LockAction, LockParams, set_lock_non_blocking, set_lock_blocking, get_lock_status,
}
use ulockmgr.Messages.LockCommand.{LockCommand}
use ulockmgr.Kernel.{Kernel}
use ulockmgr.Tracker.{track}
use ulockmgr.Daemon.State.{DaemonOwnerInner, clone_arc, drop_arc}
use ulockmgr.Daemon.Lock.{LockReply, get_lock, set_lock}

-- What the handler has done when it returns: it has replied, it has started a lock thread on the
-- file at an address, or it has only logged that no thread could be started.
pub data Handled : Type 0 where
  replied : LockReply → Handled
  started : (address thread : ℕ) → Handled
  unstarted : Handled

-- `tracker.spawn` on the command loop. The operating system gives the new thread a number, or
-- refuses; a thread that `track` refuses drops the closure, as does a spawn that fails.
unfoldable pub spawn_lock_thread : ℕ → Option ℕ → DaemonOwnerInner → Handled × DaemonOwnerInner
spawn_lock_thread a none d = (unstarted, drop_arc a d)
spawn_lock_thread a (some t) d = elim (get a d.trackers) [
  | none ↦ (unstarted, drop_arc a d)
  | some g ↦
      let (r, g') = track t g in
      elim r [
        | err e ↦ (unstarted, drop_arc a d)
        | ok _ ↦ (started a t, record d { trackers = put a g' d.trackers })
      ]
]

module _ (k : Kernel) (c : Libc) (n : Errnos) where
  open k use {World}

  -- The branches on the action, with a clone of the `Arc` in hand, which is dropped at the end.
  unfoldable pub run_command :
      LockAction
      → ℕ
      → ℕ
      → LockParams
      → Option ℕ
      → DaemonOwnerInner
      → World
      → Handled × DaemonOwnerInner × World
  run_command get_lock_status a fd params thread d w =
      let (r, w') = get_lock k c n fd params w in (replied r, drop_arc a d, w')
  run_command set_lock_non_blocking a fd params thread d w =
      let (r, w') = set_lock k c n fd params w in (replied r, drop_arc a d, w')
  run_command set_lock_blocking a fd params thread d w =
      let (h, d') = spawn_lock_thread a thread (clone_arc a d) in (h, drop_arc a d', w)

  -- `none`: the map holds an address that is not there.
  unfoldable pub handle_lock_command :
      LockCommand
      → Option ℕ
      → DaemonOwnerInner
      → World
      → Option (Handled × DaemonOwnerInner × World)
  handle_lock_command m thread d w = elim (get m.id d.descriptors) [
    | none ↦ some (replied (io_cvt n (err (custom not_found))), d, w)
    | some a ↦ elim (get a d.heap) [
      | none ↦ none
      | some x ↦ some (run_command m.action a x.descriptor m.params thread (clone_arc a d) w)
    ]
  ]
