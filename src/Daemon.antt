-- ===== src/Daemon.antt =====
-- crates/valvd/src/tasks.rs: what the daemon does with the files of a mount.
pub mod Disk
pub mod Versions
pub mod Pulled
pub mod Cleanup
pub mod Materialize
pub mod Health
pub mod Mounts
pub mod Polls
pub mod PullOnce
pub mod FullSync
pub mod Paths
pub mod SyncLoop
