-- ===== src/Update.antt =====
-- The updaters: crates/valv-cli/src/update.rs, crates/valvd/src/self_update.rs, and what they share in
-- crates/valv-sync/src/update.rs.
pub mod Assets
pub mod Swap
pub mod Restart
pub mod Guard
pub mod Command
