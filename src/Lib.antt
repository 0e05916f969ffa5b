-- ===== src/Lib.antt =====
-- vault-search-mcp: a server that searches and edits a vault of Markdown notes. This library models
-- the parts that decide what is indexed and what is written, and proves what makes them correct.
--
-- How the parts interact. A tool call or a change on disk leads to a reindex: the watcher
-- (src/vault_search/watching) filters the events of the file system, drops those that the server
-- caused itself, waits out the debounce window and calls the indexer; the tools go through the
-- reindex queue (src/vault_search/server/reindex_queue.py), whose one worker calls the indexer and
-- drops the search cache. The indexer cuts notes into bounded chunks
-- (src/vault_search/core/chunker.py) and makes the records of the index from them
-- (src/vault_search/utils/chunking.py). Listing notes goes through a cache of metadata
-- (src/vault_search/crud/cache.py). The operations on notes (src/vault_search/crud/write.py and
-- delete.py) read, check and replace files, and missing frontmatter is filled in by jobs in the
-- background (src/vault_search/server/frontmatter_jobs.py).
--
-- The files, each with the code that it models:
--   ReindexQueue: server/reindex_queue.py. The state is a record with the versions, the queue and
--     the point of the worker's loop; `enqueue_key`, `work` and `refuse`/`signal` are `_enqueue_key`,
--     `_worker_loop` and `stop`, one atomic step per block under the lock or per queue call, and
--     `Step` and `Reach` are all their interleavings. Cases, Invariant, Steps, Served and Drain hold
--     the proofs.
--   Chunker: core/chunker.py, on lists of code points. Bounds, Content and Overlap hold the proofs.
--   Collect: utils/chunking.py.
--   MetadataCache: crud/cache.py. The order of the dictionary is the order of use. Order, Laws and
--     Invalidation hold the proofs.
--   Watching.Ignore, Watching.Handler and Watching.Watcher: watching/event_handler.py and
--     watching/watcher.py. Tokens, Enqueue, Debounce and Lifecycle hold the proofs.
--   EnrichmentJobs: server/frontmatter_jobs.py, again as steps of the callers and the worker.
--     Counters, Work, Pruning and History hold the proofs.
--   Indexer: core/indexer.py, over the interface `Lance` of a database each of whose calls may fail,
--     with the laws that the code relies on (`IsLawful`): a call that raises changes nothing, and a
--     version can be restored. Database and State are the tables, the records and the object's fields;
--     NoteRecords/Apply is `_apply_note_records`, Breaker the circuit breaker, ReindexNote/Run
--     `reindex_note`, SyncCheck/Run `sync_check` with core/scanner.py, Resolve
--     `_resolve_link_targets`, Vector the vector index with config/search.py, Stats `get_stats`, and
--     FullReindex/Staging and FullReindex/Run are `full_reindex`. Rules and the other modules below
--     NoteRecords, ReindexNote, SyncCheck and FullReindex hold the proofs. A failed rollback, which the
--     code only logs, is counted beside the result. Tests/Memory is such a database in memory.
--   Shutdown: utils/shutdown.py, as steps of the threads that register callbacks or shut down and of
--     the one that runs the callbacks. Once holds the proofs.
--   Escape and Wikilink: the escapes of utils/security.py and the wikilink parser of utils/links.py, on
--     lists of code points. Escape/Literal has the reader of SQL literals and the meaning of LIKE that
--     the theorems speak of; Wikilink/RoundTrip prints links.
--   Crud.World, Crud.Calls, Crud.Env, Crud.Files: the file system, its calls and what other
--     processes do between them; the settings and validations of crud/validation.py;
--     `safe_read_text` and `safe_write_text`. `FileRevision`, `file_revision` and a lock's outcomes
--     are those of crud/locking.py, results those of crud/types.py. A function's early `return` and
--     exceptions are outcomes of its steps. The events of the calls and the races, which are the
--     changes between the last check of a revision and the write, are lists that a theorem
--     quantifies over, so that it covers every interleaving. The traces `writes` and `looks` record
--     each replacement or move, and each text read and each test for a file, for the theorems. Texts
--     are read with universal newlines, and written as they are, as on POSIX.
--   Crud.Write, Crud.Frontmatter, Crud.Enrich, Crud.Delete: the operations of crud/write.py and
--     crud/delete.py.
--     Crud.Ends, Crud.Effects and Crud.Alone hold the proofs.
--   Prelude and Dict: what these share, among it Python's dictionary as an association list in the
--     order of insertion, with its laws. Tests holds the theorems at concrete inputs.
-- Paths in this list are below src/vault_search.
--
-- Bounds and fuel. Numbers are unbounded, as Python's integers are; clocks are numbers of
-- milliseconds or nanoseconds. The hard cuts of the chunker recurse on fuel, the length of the text,
-- which is enough because each cut takes at least one character; all other loops are structural. The
-- drain of the reindex queue is run for a given number of steps, and a theorem gives the number that
-- is enough.
--
-- Parameters. The file system, pathlib, YAML, the schema validator, the enrichment provider, LanceDB,
-- the parser, the embedding model and, for the queue and the watcher, the results of the indexer are
-- arguments of the definitions that use them.
--
-- Not modelled: the temporary file of a write and its recovery, how locks are taken (a lock is given
-- by its outcome, and while it is held the others are processes that do not take it), regular
-- expressions and the parsers built on them, the embedding models, sockets, logging, and the glue to
-- the MCP library. Of the shutdown, the signal handlers are not modelled. The searcher, the graph
-- tools and the frontmatter validator are not modelled. Whether the background rebuild of the
-- full-text index is under way is a flag. A thread that fails to start is not modelled for the reindex
-- queue, nor the copy that `shutil.move` falls back to across file systems.
pub mod Chunker
pub mod Collect
pub mod Crud
pub mod Dict
pub mod EnrichmentJobs
pub mod Escape
pub mod Indexer
pub mod MetadataCache
pub mod Prelude
pub mod ReindexQueue
pub mod Shutdown
pub mod Tests
pub mod Watching
pub mod Wikilink
