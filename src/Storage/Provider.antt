-- ===== src/Storage/Provider.antt =====
-- `impl StorageProvider for SnapshotStorageProvider` of rust/src/snapshot_storage.rs, method by
-- method: writers, readers and deleters of single values, own leaf nodes, epoch key pairs and
-- proposals.
pub mod Writers
pub mod Readers
pub mod Deleters
pub mod Lists
pub mod Queue
pub mod Deleted
pub mod Cleared
pub mod Untouched
pub mod Objects
pub mod Interference
