-- ===== src/Indexer/NoteRecords.antt =====
-- `_apply_note_records` of src/vault_search/core/indexer.py
pub mod Apply
pub mod Atomic
pub mod Steps
pub mod Replaced
pub mod Applied
pub mod Replacing
pub mod Refines
