-- ===== src/Watching.antt =====
-- The watcher of the vault: src/vault_search/watching/. `Ignore` has the tokens for changes that
-- this process writes itself, `Handler` the coalescing of events, `Watcher` the debounced worker
-- and the lifecycle. Times are milliseconds of the monotonic clock.
pub mod Ignore
pub mod Handler
pub mod Watcher
