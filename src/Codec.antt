-- ===== src/Codec.antt =====
-- internal/codec: the primitives of DuckDB's BinarySerializer wire format.
pub mod Fault
pub mod Reader
pub mod Writer
pub mod Leb
pub mod Reads
pub mod Optional
pub mod Writes
pub mod Lists
pub mod RoundTrip
pub mod Safe
pub mod Coded
