-- ===== src/Transport.antt =====
-- internal/transport: connection addresses.
pub mod Types
pub mod Options
pub mod Uri
pub mod Privacy
pub mod Headers
pub mod Timeouts
