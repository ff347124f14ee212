-- ===== src/Storage.antt =====
-- The operation-scoped storage boundary: rust/src/snapshot_storage.rs and rust/src/api/storage.rs.
pub mod Rows
pub mod Labels
pub mod Snapshot
pub mod Batch
pub mod Typed
pub mod Provider
