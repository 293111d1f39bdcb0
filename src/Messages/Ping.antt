-- ===== src/Messages/Ping.antt =====
-- `Ping` of src/messages.rs: the check that the owner lives.
use ulockmgr.Prelude.{List, []}
use ulockmgr.IoError.{IoError, custom, invalid_input, Result, ok, err}
use ulockmgr.Messages.Traits.{OwnedFd, Serializable, Reply, new_reply, Replyable}
use ulockmgr.Messages.Raw.{RawMessage}

pub data Ping : Type 0 where
  ping : Ping

unfoldable pub serialize : Ping → RawMessage × List OwnedFd
serialize ping = (RawMessage.ping, [])

unfoldable pub deserialize : RawMessage → List OwnedFd → Result Ping IoError
deserialize RawMessage.ping fds = ok Ping.ping
deserialize _ fds = err (custom invalid_input)

instance abbrev pub serializable : Serializable Ping
serializable = record { Payload = RawMessage; serialize = serialize; deserialize = deserialize }

abbrev pub ReplyPing : Type 0
ReplyPing = Reply (Unit {0})

unfoldable pub create_reply : OwnedFd → ReplyPing
create_reply fd = new_reply fd

instance abbrev pub replyable : Replyable Ping
replyable = record { ReplyType = Unit {0}; create_reply = create_reply }
