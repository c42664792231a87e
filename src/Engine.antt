-- ===== src/Engine.antt =====
-- crates/valv-sync/src/sync_engine: the exchange with the backend.
pub mod DeltaPull
pub mod WsClient
pub mod OpSubmit
pub mod ConflictCopy
pub mod VersionPush
pub mod LocalPush
