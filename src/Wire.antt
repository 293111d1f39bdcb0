-- ===== src/Wire.antt =====
-- The framing and the transport of src/messages.rs: a frame is the length of the payload, the number
-- of descriptors and the payload; the descriptors travel beside it.
pub mod Bytes
pub mod Net
pub mod Raw
pub mod Request
pub mod Delivery
pub mod Exchange
pub mod Replies
