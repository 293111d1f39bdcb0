-- ===== src/Messages/Unregister.antt =====
-- `Unregister` of src/messages.rs: give a registered file back.
use ulockmgr.Prelude.{ℕ, List, []}
use ulockmgr.IoError.{IoError, custom, invalid_input, Result, ok, err}
use ulockmgr.Messages.Traits.{OwnedFd, Serializable, Reply, new_reply, Replyable}
use ulockmgr.Messages.Raw.{RawMessage}

pub record Unregister : Type 0 where
  pub id : ℕ

unfoldable pub serialize : Unregister → RawMessage × List OwnedFd
serialize m = (RawMessage.unregister m.id, [])

unfoldable pub deserialize : RawMessage → List OwnedFd → Result Unregister IoError
deserialize (RawMessage.unregister id) fds = ok (record { id = id })
deserialize _ fds = err (custom invalid_input)

instance abbrev pub serializable : Serializable Unregister
serializable = record { Payload = RawMessage; serialize = serialize; deserialize = deserialize }

abbrev pub ReplyUnregister : Type 0
ReplyUnregister = Reply (Unit {0})

unfoldable pub create_reply : OwnedFd → ReplyUnregister
create_reply fd = new_reply fd

instance abbrev pub replyable : Replyable Unregister
replyable = record { ReplyType = Unit {0}; create_reply = create_reply }
