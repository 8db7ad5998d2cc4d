-- ===== src/Message.antt =====
-- internal/message: messages, data chunks and the vectors in them.
pub mod Types
pub mod Validity
pub mod HugeInt
pub mod Vector
pub mod Fields
pub mod Encode
pub mod Decode
pub mod Encodable
pub mod RoundTrip
pub mod Theorems
