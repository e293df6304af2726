-- ===== src/Dedup.antt =====
-- dedup/: the store protocol, its in-memory implementation and the deduplicator over any store.
pub mod Keys
pub mod Store
pub mod Memory
pub mod Statements
pub mod Sqlite
pub mod Connection
pub mod Postgres
pub mod Redis
pub mod Deduplicator
pub mod Workers
pub mod Signals
