-- ===== src/Watch.antt =====
-- crates/valv-sync/src/watch/mod.rs: the file watcher of a mount.
pub mod Events
pub mod Task
pub mod Resolve
pub mod Handle
