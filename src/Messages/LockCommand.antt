-- ===== src/Messages/LockCommand.antt =====
-- `LockCommand` of src/messages.rs: a lock command on a registered file.
use ulockmgr.Prelude.{ℕ, List, []}
use ulockmgr.IoError.{IoError, custom, invalid_input, Result, ok, err}
use ulockmgr.Types.{LockAction, LockParams}
use ulockmgr.Messages.Traits.{OwnedFd, Serializable, Reply, new_reply, Replyable}
use ulockmgr.Messages.Raw.{RawMessage}

pub record LockCommand : Type 0 where
  pub id : ℕ
  pub action : LockAction
  pub params : LockParams

-- `ReplyLockCommandData`
pub data ReplyLockCommandData : Type 0 where
  pending : ℕ → ReplyLockCommandData
  done : LockParams → ReplyLockCommandData

unfoldable pub serialize : LockCommand → RawMessage × List OwnedFd
serialize m = (RawMessage.lock_command m.id m.action m.params, [])

unfoldable pub deserialize : RawMessage → List OwnedFd → Result LockCommand IoError
deserialize (RawMessage.lock_command id action params) fds =
    ok (record { id = id; action = action; params = params })
deserialize _ fds = err (custom invalid_input)

instance abbrev pub serializable : Serializable LockCommand
serializable = record { Payload = RawMessage; serialize = serialize; deserialize = deserialize }

abbrev pub ReplyLockCommand : Type 0
ReplyLockCommand = Reply ReplyLockCommandData

unfoldable pub create_reply : OwnedFd → ReplyLockCommand
create_reply fd = new_reply fd

instance abbrev pub replyable : Replyable LockCommand
replyable = record { ReplyType = ReplyLockCommandData; create_reply = create_reply }
