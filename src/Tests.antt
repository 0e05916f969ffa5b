-- ===== src/Tests.antt =====
-- The theorems at concrete inputs, and runs of the definitions.
mod Memory
mod Indexer
mod Texts
mod Shutdown
mod ReindexQueue
mod Chunker
mod MetadataCache
mod Watching
mod Crud
mod EnrichmentJobs
