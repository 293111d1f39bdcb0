-- ===== src/Messages/Message.antt =====
-- `Message` of src/messages.rs: what the owner process receives.
use ulockmgr.Prelude.{List}
use ulockmgr.IoError.{IoError, Result, map_ok}
use ulockmgr.Messages.Traits.{OwnedFd, Serializable}
use ulockmgr.Messages.Raw.{RawMessage}
use ulockmgr.Messages.Ping.{Ping}
use ulockmgr.Messages.Ping
use ulockmgr.Messages.Interrupt.{Interrupt}
use ulockmgr.Messages.Interrupt
use ulockmgr.Messages.RemoveInterrupt.{RemoveInterrupt}
use ulockmgr.Messages.RemoveInterrupt
use ulockmgr.Messages.Register.{Register}
use ulockmgr.Messages.Register
use ulockmgr.Messages.Unregister.{Unregister}
use ulockmgr.Messages.Unregister
use ulockmgr.Messages.LockCommand.{LockCommand}
use ulockmgr.Messages.LockCommand

pub data Message : Type 0 where
  ping : Ping → Message
  interrupt : Interrupt → Message
  remove_interrupt : RemoveInterrupt → Message
  register : Register → Message
  unregister : Unregister → Message
  lock_command : LockCommand → Message

unfoldable pub serialize : Message → RawMessage × List OwnedFd
serialize (ping m) = Ping.serialize m
serialize (interrupt m) = Interrupt.serialize m
serialize (register m) = Register.serialize m
serialize (unregister m) = Unregister.serialize m
serialize (lock_command m) = LockCommand.serialize m
serialize (remove_interrupt m) = RemoveInterrupt.serialize m

unfoldable pub deserialize : RawMessage → List OwnedFd → Result Message IoError
deserialize RawMessage.ping fds = map_ok ping (Ping.deserialize RawMessage.ping fds)
deserialize (RawMessage.interrupt id) fds =
    map_ok interrupt (Interrupt.deserialize (RawMessage.interrupt id) fds)
deserialize RawMessage.register fds = map_ok register (Register.deserialize RawMessage.register fds)
deserialize (RawMessage.unregister id) fds =
    map_ok unregister (Unregister.deserialize (RawMessage.unregister id) fds)
deserialize (RawMessage.lock_command id action params) fds =
    map_ok lock_command (LockCommand.deserialize (RawMessage.lock_command id action params) fds)
deserialize (RawMessage.remove_interrupt id) fds =
    map_ok remove_interrupt (RemoveInterrupt.deserialize (RawMessage.remove_interrupt id) fds)

instance abbrev pub serializable : Serializable Message
serializable = record { Payload = RawMessage; serialize = serialize; deserialize = deserialize }
