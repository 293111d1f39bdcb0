-- ===== src/Messages/Register.antt =====
-- `Register` of src/messages.rs: hand a file over, which travels beside the payload.
use ulockmgr.Prelude.{ℕ, List, [], ◌∷◌}
use ulockmgr.IoError.{IoError, custom, invalid_input, Result, ok, err}
use ulockmgr.Messages.Traits.{OwnedFd, Serializable, Reply, new_reply, Replyable}
use ulockmgr.Messages.Raw.{RawMessage}

pub record Register : Type 0 where
  pub fd : OwnedFd

unfoldable pub serialize : Register → RawMessage × List OwnedFd
serialize m = (RawMessage.register, m.fd ∷ [])

-- The number of descriptors is checked before the payload.
unfoldable pub deserialize : RawMessage → List OwnedFd → Result Register IoError
deserialize RawMessage.register (fd ∷ []) = ok (record { fd = fd })
deserialize _ _ = err (custom invalid_input)

instance abbrev pub serializable : Serializable Register
serializable = record { Payload = RawMessage; serialize = serialize; deserialize = deserialize }

abbrev pub ReplyRegister : Type 0
ReplyRegister = Reply ℕ

unfoldable pub create_reply : OwnedFd → ReplyRegister
create_reply fd = new_reply fd

instance abbrev pub replyable : Replyable Register
replyable = record { ReplyType = ℕ; create_reply = create_reply }
