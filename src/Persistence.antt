-- ===== src/Persistence.antt =====
-- crates/valv-sync/src/persistence: the local mirror of the folders, in SQLite.
pub mod Db
pub mod Nodes
pub mod Mounts
pub mod Versions
pub mod Chunks
pub mod OpLog
pub mod Snapshot
