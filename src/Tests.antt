-- ===== src/Tests.antt =====
-- Runs of the model on small inputs.
pub mod Sample
mod Mirror
mod Pull
mod Submit
mod Files
pub mod Push
mod Walk
mod Fuel
pub mod Daemon
mod Paths
mod Releases
mod SyncLoop
mod Watch
mod Update
mod FullSync
mod Polls
mod WsClient
