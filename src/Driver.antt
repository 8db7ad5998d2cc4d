-- ===== src/Driver.antt =====
-- driver/quack: connections, their transactions and statements.
pub mod Connection
pub mod Statement
pub mod Transactions
pub mod Calls
pub mod Params
pub mod Markers
pub mod Quoting
pub mod Pieces
pub mod Session
pub mod Streaming
pub mod Draining
pub mod RecordReader
pub mod Reading
pub mod Ingest
