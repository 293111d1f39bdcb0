-- ===== src/Daemon.antt =====
-- The owner process of src/owner.rs: its state, its handlers, its threads, and the loops that run them.
pub mod Ids
pub mod State
pub mod Handlers
pub mod System
pub mod Invariant
pub mod Safety
pub mod Answers
pub mod Bounds
pub mod Threads
pub mod Registry
pub mod Lock
pub mod Command
pub mod Receive
pub mod Start
pub mod Spec
