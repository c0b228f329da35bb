-- ===== src/Ingest.antt =====
-- internal/ingest: the ingestion of advertisements.
pub mod State
pub mod Events
pub mod Sync
pub mod Tests
pub mod Store
pub mod AutoSync
pub mod Batches
pub mod Entries
pub mod Hamt
pub mod Staging
pub mod Link
pub mod Ad
pub mod System
pub mod Worker
