-- ===== src/Messages/RoundTrip.antt =====
-- Writing and reading messages of src/messages.rs.
use ulockmgr.Prelude.{◌≡◌, ◌≢◌, ◌↔◌, refl, List, [], ◌∷◌, arith, length}
use ulockmgr.IoError.{custom, invalid_input, ok, err}
use ulockmgr.Messages.Traits.{OwnedFd, RoundTrips}
use ulockmgr.Messages.Raw.{RawMessage}
use ulockmgr.Messages.Ping
use ulockmgr.Messages.Interrupt
use ulockmgr.Messages.RemoveInterrupt
use ulockmgr.Messages.Register
use ulockmgr.Messages.Unregister
use ulockmgr.Messages.LockCommand
use ulockmgr.Messages.RequestSpawnOwner
use ulockmgr.Messages.Message.{
  Message, ping, interrupt, remove_interrupt, register, unregister, lock_command,
}
use ulockmgr.Messages.Message

-- Every message that a client serializes is deserialized by the owner as the same message.
pub message_roundtrip :
    (m : Message) → Message.deserialize (Message.serialize m).0 (Message.serialize m).1 ≡ ok m
unfolding Message.serialize Message.deserialize Ping.serialize Ping.deserialize Interrupt.serialize
    Interrupt.deserialize RemoveInterrupt.serialize RemoveInterrupt.deserialize Register.serialize
    Register.deserialize Unregister.serialize Unregister.deserialize LockCommand.serialize
    LockCommand.deserialize
message_roundtrip (ping Ping.ping) = refl
message_roundtrip (interrupt m) = refl
message_roundtrip (remove_interrupt m) = refl
message_roundtrip (register m) = refl
message_roundtrip (unregister m) = refl
message_roundtrip (lock_command m) = refl

pub spawn_roundtrip : RoundTrips RequestSpawnOwner.serializable
unfolding RequestSpawnOwner.serialize RequestSpawnOwner.deserialize
spawn_roundtrip m = refl

-- A payload with its descriptors is refused as invalid input exactly when it is a registration
-- that comes with a number of descriptors other than one.
pub deserialize_refuses :
    (p : RawMessage) (fds : List OwnedFd)
    → (Message.deserialize p fds ≡ err (custom invalid_input))
      ↔ ((p ≡ RawMessage.register) × (length fds ≢ 1))
unfolding Message.deserialize Ping.deserialize Interrupt.deserialize RemoveInterrupt.deserialize
    Register.deserialize Unregister.deserialize LockCommand.deserialize
deserialize_refuses RawMessage.register [] = ground arith
deserialize_refuses RawMessage.register (fd ∷ []) = ground arith
deserialize_refuses RawMessage.register (fd ∷ x ∷ fds) = ground arith
deserialize_refuses p fds = ground arith
