-- ===== src/Indexer/SyncCheck.antt =====
-- `sync_check` of src/vault_search/core/indexer.py
pub mod Run
pub mod Stale
