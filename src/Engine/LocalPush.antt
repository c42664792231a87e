-- ===== src/Engine/LocalPush.antt =====
-- crates/valv-sync/src/sync_engine/local_push.rs: what a device has on disk is told to the backend.
-- A path is the list of its components below the mount's root, and the disk tells which exist.
pub mod State
pub mod Moves
pub mod Deletes
pub mod Existing
pub mod Create
pub mod Listing
pub mod Walk
