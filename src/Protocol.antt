-- ===== src/Protocol.antt =====
-- Client and server of src/owner.rs together.
pub mod Blocking
pub mod NonBlocking
pub mod Trip
pub mod Locking
pub mod Query
pub mod Registration
pub mod Session
pub mod Creation
pub mod Relock
pub mod ShortHeader
