-- ===== src/Storage.antt =====
-- crates/valv-sync/src/storage/mod.rs: the chunks of a version go to the object store and come
-- back. The HTTP client and the store's replies are parameters, which depend on the request only.
pub mod Chunking
pub mod Batch
pub mod Upload
pub mod Download
pub mod RoundTrip
pub mod Verified
pub mod Marks
