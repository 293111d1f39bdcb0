-- ===== src/Messages/Traits.antt =====
-- The traits `Serializable`, `Replyable` and `Reply` of src/messages.rs.
-- A file descriptor is a number that names an open file description.
use ulockmgr.Prelude.{ℕ, ◌≡◌, List}
use ulockmgr.IoError.{IoError, Result, ok}

abbrev pub OwnedFd : Type 0
OwnedFd = ℕ

pub record Serializable (M : Type 0) : Type 1 where
  pub Payload : Type 0
  pub serialize : M → Payload × List OwnedFd
  pub deserialize : Payload → List OwnedFd → Result M IoError

-- What an implementation owes: what `serialize` writes, `deserialize` reads.
abbrev pub RoundTrips : {M : Type 0} → Serializable M → Type 0
RoundTrips {M} s = (m : M) → s.deserialize (s.serialize m).0 (s.serialize m).1 ≡ ok m

-- `RawReply`, wrapped by the structure of each message's reply. `T` is the associated type
-- `Reply::Type`, the payload of an Ok reply.
pub record Reply (T : Type 0) : Type 0 where
  pub channel : OwnedFd

-- `RawReply::new`
abbrev pub new_reply : {T : Type 0} → OwnedFd → Reply T
new_reply fd = record { channel = fd }

pub record Replyable (M : Type 0) : Type 1 where
  -- `<M::Reply as Reply>::Type`
  pub ReplyType : Type 0
  pub create_reply : OwnedFd → Reply ReplyType
