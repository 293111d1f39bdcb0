-- ===== src/Messages/Interrupt.antt =====
-- `Interrupt` of src/messages.rs: interrupt the lock thread with an interrupt ID.
use ulockmgr.Prelude.{ℕ, List, []}
use ulockmgr.IoError.{IoError, custom, invalid_input, Result, ok, err}
use ulockmgr.Messages.Traits.{OwnedFd, Serializable, Reply, new_reply, Replyable}
use ulockmgr.Messages.Raw.{RawMessage}

pub record Interrupt : Type 0 where
  pub id : ℕ

unfoldable pub serialize : Interrupt → RawMessage × List OwnedFd
serialize m = (RawMessage.interrupt m.id, [])

unfoldable pub deserialize : RawMessage → List OwnedFd → Result Interrupt IoError
deserialize (RawMessage.interrupt id) fds = ok (record { id = id })
deserialize _ fds = err (custom invalid_input)

instance abbrev pub serializable : Serializable Interrupt
serializable = record { Payload = RawMessage; serialize = serialize; deserialize = deserialize }

abbrev pub ReplyInterrupt : Type 0
ReplyInterrupt = Reply (Unit {0})

unfoldable pub create_reply : OwnedFd → ReplyInterrupt
create_reply fd = new_reply fd

instance abbrev pub replyable : Replyable Interrupt
replyable = record { ReplyType = Unit {0}; create_reply = create_reply }
