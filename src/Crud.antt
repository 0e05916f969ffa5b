-- ===== src/Crud.antt =====
-- The operations on notes of src/vault_search/crud: write.py, delete.py, validation.py and the
-- revisions of locking.py.
pub mod World
pub mod Calls
pub mod Env
pub mod Files
pub mod Write
pub mod Frontmatter
pub mod Delete
pub mod Ends
pub mod Effects
pub mod Alone
pub mod Enrich
