-- ===== src/Messages/RemoveInterrupt.antt =====
-- `RemoveInterrupt` of src/messages.rs: forget an interrupt ID.
use ulockmgr.Prelude.{ℕ, List, []}
use ulockmgr.IoError.{IoError, custom, invalid_input, Result, ok, err}
use ulockmgr.Messages.Traits.{OwnedFd, Serializable, Reply, new_reply, Replyable}
use ulockmgr.Messages.Raw.{RawMessage}

pub record RemoveInterrupt : Type 0 where
  pub id : ℕ

unfoldable pub serialize : RemoveInterrupt → RawMessage × List OwnedFd
serialize m = (RawMessage.remove_interrupt m.id, [])

unfoldable pub deserialize : RawMessage → List OwnedFd → Result RemoveInterrupt IoError
deserialize (RawMessage.remove_interrupt id) fds = ok (record { id = id })
deserialize _ fds = err (custom invalid_input)

instance abbrev pub serializable : Serializable RemoveInterrupt
serializable = record { Payload = RawMessage; serialize = serialize; deserialize = deserialize }

abbrev pub ReplyRemoveInterrupt : Type 0
ReplyRemoveInterrupt = Reply (Unit {0})

unfoldable pub create_reply : OwnedFd → ReplyRemoveInterrupt
create_reply fd = new_reply fd

instance abbrev pub replyable : Replyable RemoveInterrupt
replyable = record { ReplyType = Unit {0}; create_reply = create_reply }
