-- ===== src/Daemon/Lock.antt =====
-- The lock commands of src/owner.rs: `handle_lock_command`, and `set_lock_blocking` on the server.
-- A reply is what is handed to `reply`, after `io_cvt`: an Ok payload or an error number. The
-- replies of a command come back oldest first, with the state that is left.
pub mod Masks
pub mod Replies
use ulockmgr.Prelude.{ℕ, Option, none, some, List, [], ◌∷◌, ◌==◌, if◌then◌else◌}
use ulockmgr.Prelude.Assoc.{get}
use ulockmgr.IoError.{
  IoError, os, custom, not_found, Result, ok, err, map_ok, map_err, ◌>>=◌, Errnos, io_cvt,
}
use ulockmgr.Types.{
  Libc, Flock, LockParams, set_lock_non_blocking, set_lock_blocking, get_lock_status,
  params_try_from, params_into_flock,
}
use ulockmgr.Messages.LockCommand.{ReplyLockCommandData, pending, done}
use ulockmgr.Kernel.{Kernel, block_all_signals, unblock_signal, drop_guard}
use ulockmgr.Daemon.State.{DaemonOwnerInner, InterruptibleHandle}
use ulockmgr.Daemon.Handlers.{handle_interrupt_add}

abbrev pub LockReply : Type 0
LockReply = Result ReplyLockCommandData ℕ

-- The platform that a command runs on.
module _ (k : Kernel) (c : Libc) (n : Errnos) where
  open k use {World, SigSet, getlk, setlk, setlkw}

  -- The branch `GetLockStatus`: the parameters that F_GETLK has written over come back.
  unfoldable pub get_lock : ℕ → LockParams → World → LockReply × World
  get_lock fd params w =
      let (r, w') = getlk fd (params_into_flock c params) w in
      (io_cvt n (map_err os r >>= λ raw. map_ok done (params_try_from c raw)), w')

  -- The branch `SetLockNonBlocking`: the parameters come back as they were sent.
  unfoldable pub set_lock : ℕ → LockParams → World → LockReply × World
  set_lock fd params w =
      let raw = params_into_flock c params in
      let (r, w') = setlk fd raw w in
      (io_cvt n (map_err os r >>= λ _. map_ok done (params_try_from c raw)), w')

  -- `set_lock_blocking` up to its first reply, after the signals are blocked. `none`: the loop over
  -- interrupt IDs has not ended.
  unfoldable pub try_lock :
      DaemonOwnerInner
      → InterruptibleHandle
      → ℕ
      → LockParams
      → World
      → Option (LockReply × DaemonOwnerInner × World)
  try_lock owner interrupt fd lock w =
      let (r, w') = setlk fd (params_into_flock c lock) w in
      elim r [
        | ok _ ↦ some (io_cvt n (ok (done lock)), owner, w')
        | err e ↦
            if e == n.eagain
            then elim (handle_interrupt_add owner interrupt) [
              | none ↦ none
              | some (id, owner') ↦ some (io_cvt n (ok (pending id)), owner', w')
            ]
            else some (io_cvt n (err (os e)), owner, w')
      ]

  -- From there to the end: F_SETLKW with SIGUSR1 let through, and the last reply.
  unfoldable pub wait_lock : ℕ → LockParams → World → LockReply × World
  wait_lock fd lock w =
      let (r, w') = unblock_signal k w in
      elim r [
        | err e ↦ (io_cvt n (err e), w')
        | ok restore ↦
            let (res, w'') = setlkw fd (params_into_flock c lock) w' in
            (io_cvt n (map_ok (λ _. done lock) (map_err os res)), drop_guard k restore w'')
      ]

  -- `set_lock_blocking` of the server: its replies, the state of the owner, and the world.
  unfoldable pub set_lock_blocking_thread :
      DaemonOwnerInner
      → InterruptibleHandle
      → ℕ
      → LockParams
      → World
      → Option (List LockReply × DaemonOwnerInner × World)
  set_lock_blocking_thread owner interrupt fd lock w =
      let (r, w') = block_all_signals k w in
      elim r [
        | err e ↦ some (io_cvt n (err e) ∷ [], owner, w')
        | ok restore ↦ elim (try_lock owner interrupt fd lock w') [
          | none ↦ none
          | some (first, owner', w'') ↦
              let (last, w''') = wait_lock fd lock w'' in
              some (first ∷ last ∷ [], owner', drop_guard k restore w''')
        ]
      ]
