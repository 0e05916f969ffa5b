-- ===== src/Indexer.antt =====
-- src/vault_search/core/indexer.py
pub mod Database
pub mod State
pub mod NoteRecords
pub mod Rules
pub mod Breaker
pub mod ReindexNote
pub mod SyncCheck
pub mod Resolve
pub mod FullReindex
pub mod Vector
pub mod Stats
