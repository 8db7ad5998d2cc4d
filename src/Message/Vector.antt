-- ===== src/Message/Vector.antt =====
-- internal/message/vectors.go, vector_codec.go and vector_encoder.go: columns and data chunks.
pub mod Types
pub mod Times
pub mod Values
pub mod Shapes
pub mod Flat
pub mod Decode
pub mod Stored
pub mod Encode
pub mod Enums
pub mod Clock
pub mod Dictionary
pub mod Sequence
pub mod Rows
pub mod Column
pub mod RoundTrip
pub mod Chunk
pub mod Decimals
pub mod Uuids
