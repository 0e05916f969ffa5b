-- ===== src/Indexer/FullReindex.antt =====
-- `full_reindex` of src/vault_search/core/indexer.py
pub mod Staging
pub mod Run
pub mod Guarded
pub mod Batches
pub mod Loop
pub mod Graph
pub mod Commit
pub mod Still
pub mod Ending
pub mod Promised
pub mod Phases
pub mod Rebuilt
pub mod Live
pub mod Completes
