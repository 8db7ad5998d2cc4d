-- ===== src/QuackType.antt =====
-- internal/quacktype: DuckDB's types as they appear on the wire.
pub mod Types
pub mod Ids
pub mod Physical
pub mod Encode
pub mod Decode
pub mod Wire
pub mod Written
pub mod Fields
pub mod Cases
pub mod RoundTrip
pub mod Theorems
pub mod Safe
