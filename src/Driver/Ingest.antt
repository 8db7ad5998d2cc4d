-- ===== src/Driver/Ingest.antt =====
-- driver/quack/bulk_ingest.go: loading Arrow records into a table.
pub mod Arrow
pub mod Table
pub mod Chunk
pub mod Execute
pub mod Modes
pub mod Effects
pub mod Isolation
pub mod Rows
