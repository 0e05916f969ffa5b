-- ===== src/Indexer/ReindexNote.antt =====
-- `reindex_note` of src/vault_search/core/indexer.py
pub mod Run
pub mod Statuses
pub mod Truthful
