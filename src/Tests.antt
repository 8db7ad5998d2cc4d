-- ===== src/Tests.antt =====
-- The theorems at concrete inputs.
mod Codecs
mod Vectors
mod Messages
mod Connections
mod Cursors
mod Addresses
mod Ingest
