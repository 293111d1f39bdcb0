-- ===== src/Types.antt =====
-- src/types.rs: the lock command's action, type, whence and parameters, and their C encodings.
-- A C integer is its bit pattern: an i16 is below 2^16, an i32 below 2^32.
pub mod Encoding
pub mod RoundTrip
pub mod Accepted
pub use Encoding.*
