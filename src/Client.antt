-- ===== src/Client.antt =====
-- The client side of src/owner.rs: `RawLockable` and its interrupt handle, and `Invoker`.
pub mod Calls
pub mod Wait
pub mod Cleanup
pub mod Detached
pub mod Owner
pub mod Locking
