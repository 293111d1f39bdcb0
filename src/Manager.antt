-- ===== src/Manager.antt =====
-- src/lib.rs: `LockManager`, which starts an owner process on demand and registers files with it.
pub mod Owners
pub mod Rounds
pub mod Live
pub mod Returns
pub mod Register
pub mod Cleanup
pub mod Exited
pub mod Connect
pub mod Start
pub mod Callers
