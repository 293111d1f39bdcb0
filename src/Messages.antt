-- ===== src/Messages.antt =====
-- src/messages.rs: the messages, the traits that they implement, the replies, and the framing on
-- the socket. `Traits` has the traits, one child has each message, `Message` the enum over them.
pub mod Traits
pub mod Raw
pub mod Ping
pub mod Interrupt
pub mod RemoveInterrupt
pub mod Register
pub mod Unregister
pub mod LockCommand
pub mod RequestSpawnOwner
pub mod Message
pub mod RoundTrip
