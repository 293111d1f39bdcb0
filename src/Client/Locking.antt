-- ===== src/Client/Locking.antt =====
-- `Lockable::get_lock` and `Lockable::set_lock_nonblocking` of src/owner.rs, which call those of
-- `RawLockable`: from the calls of a client down to the socket.
use ulockmgr.IoError.{ok}
use ulockmgr.Types.{LockAction, LockParams, get_lock_status, set_lock_non_blocking}
use ulockmgr.Messages.LockCommand.{LockCommand, ReplyLockCommandData}
use ulockmgr.Messages.LockCommand
use ulockmgr.Client.Calls.{FetchedReplyResult}
use ulockmgr.Client.Calls
use ulockmgr.Client.Owner.{Client, RawLockable, masked, send_request}
use ulockmgr.Wire.Net.{Io}

module _ (c : Client) where
  open c use {net, raw_message, lock_reply}

  -- The request of a lock command.
  unfoldable pub command :
      RawLockable
      → LockAction
      → LockParams
      → net.World
      → FetchedReplyResult ReplyLockCommandData × net.World
  command l action params w =
      send_request c LockCommand.serializable LockCommand.replyable raw_message lock_reply l.owner
        (record { id = l.id; action = action; params = params }) w

  -- `Lockable::get_lock`, and `Lockable::set_lock_nonblocking`; the signals are blocked around both.
  unfoldable pub get_lock : RawLockable → LockParams → Io net LockParams
  get_lock l params =
      masked c
        λ w. let (r, w') = command l get_lock_status params w in (Calls.get_lock (ok tt) r, w')

  unfoldable pub set_lock_nonblocking : RawLockable → LockParams → Io net LockParams
  set_lock_nonblocking l params = masked c λ w.
      let (r, w') = command l set_lock_non_blocking params w in
      (Calls.set_lock_nonblocking (ok tt) r, w')
