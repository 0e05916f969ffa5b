-- ===== src/Indexer/FullReindex/Run.antt =====
-- `full_reindex` of src/vault_search/core/indexer.py, its commit and its end. FTS and vector indexes
-- hold no rows; `_maybe_create_vector_index` logs every failure.
use vault_search_mcp.Prelude.{
  ℕ, Bool, true, false, Option, none, some, List, [], if◌then◌else◌, nat_eq, string_eq, leb,
}
use vault_search_mcp.Prelude.Text.{Text, text_eq}
use vault_search_mcp.Indexer.Database.{
  Lance, Kind, Row, chunks, links, aliases, staging, canonical, create, overwrite, open_table,
  create_fts_index, optimize,
}
use vault_search_mcp.Indexer.State.{
  Indexer, Io, continue, ◌>>=◌, ◌>>◌, call, version, read, push_snapshot, set_handle, on_canonical,
  closed, list_tables,
}
use vault_search_mcp.Indexer.NoteRecords.Apply.{rollback}
use vault_search_mcp.Indexer.Vector.{VectorSettings, Reason, created, maybe_create_vector_index}
use vault_search_mcp.Indexer.FullReindex.Staging.{
  Completed, Progress, no_progress, Stop, finished, interrupted, raised, reset_staging_tables,
  use_staging, collect_notes, store_last, index_graph,
}

pub data FullReindexStatus : Type 0 where
  completed failed interrupted_early : FullReindexStatus

pub record FullReindexStats : Type 0 where
  pub status : FullReindexStatus
  pub total_notes : ℕ
  pub total_chunks : ℕ
  pub parse_errors : ℕ
  pub total_links : ℕ
  pub total_aliases : ℕ
  pub vector_index_created : Bool
  pub previous_index_preserved : Bool

-- An exception that leaves the method, or its statistics.
pub data FullResult : Type 0 where
  escaped : FullResult
  stats : FullReindexStats → FullResult

unfoldable pub failure : FullReindexStatus → Progress → FullReindexStats
failure status p = record {
  status = status;
  total_notes = p.notes_indexed;
  total_chunks = p.total_chunks;
  parse_errors = p.parse_errors;
  total_links = 0;
  total_aliases = 0;
  vector_index_created = false;
  previous_index_preserved = true;
}

unfoldable pub was_created : Reason → Bool
was_created (created partitions) = true
was_created _ = false

module _ {L : Lance} where
  unfoldable pub reopen : Kind → Bool → Io L (Unit {0})
  unfolding call set_handle
  reopen k false s = (set_handle k closed s, some tt)
  reopen k true s =
      continue (call (canonical k) open_table s) (λ _ s'. (set_handle k on_canonical s', some tt))

  -- `_restore_canonical_handles`
  unfoldable pub restore_canonical_handles : Io L (Unit {0})
  unfolding list_tables reopen
  restore_canonical_handles = do
    names ← list_tables
    reopen chunks (names (canonical chunks))
    reopen links (names (canonical links))
    reopen aliases (names (canonical aliases))

  unfoldable pub end_failure :
      FullReindexStats → ℕ → Indexer L × Option (Unit {0}) → Indexer L × FullResult × ℕ
  end_failure result logged (s, none) = (s, escaped, logged)
  end_failure result logged (s, some _) = (s, stats result, logged)

  -- `failure_stats`, with the failed rollbacks that were logged.
  unfoldable pub failure_stats :
      FullReindexStatus → Progress → ℕ → Indexer L → Indexer L × FullResult × ℕ
  unfolding restore_canonical_handles end_failure failure
  failure_stats status p logged s =
      end_failure (failure status p) logged (restore_canonical_handles s)

  unfoldable pub end_or_again :
      FullReindexStatus → Progress → ℕ → Indexer L × Option (Unit {0}) → Indexer L × FullResult × ℕ
  unfolding failure_stats failure
  end_or_again status p logged (s, none) = failure_stats failed p logged s
  end_or_again status p logged (s, some _) = (s, stats (failure status p), logged)

  -- A `return failure_stats(...)` inside the `try`: if that raises, `except` calls it again.
  unfoldable pub failure_or_again :
      FullReindexStatus → Progress → ℕ → Indexer L → Indexer L × FullResult × ℕ
  unfolding end_or_again restore_canonical_handles
  failure_or_again status p logged s = end_or_again status p logged (restore_canonical_handles s)

  -- `_replace_table_from_staging`; what it returns goes to `committed`.
  unfoldable pub put_canonical : Kind → Bool → List Row → Io L (Unit {0})
  unfolding call version push_snapshot
  put_canonical k true rows = do
    call (canonical k) open_table
    v ← version (canonical k)
    call (canonical k) (overwrite rows)
    push_snapshot (canonical k) (some v)
  put_canonical k false rows = do call (canonical k) (create rows); push_snapshot (canonical k) none

  unfoldable pub replace_table_from_staging : Kind → Io L (Unit {0})
  unfolding list_tables read put_canonical
  replace_table_from_staging k = do
    names ← list_tables
    rows ← read (staging k)
    put_canonical k (names (canonical k)) rows

  unfoldable pub commit : Io L (Unit {0})
  unfolding replace_table_from_staging
  commit = do
    replace_table_from_staging links
    replace_table_from_staging aliases
    replace_table_from_staging chunks

  unfoldable pub use_canonical : Indexer L → Indexer L
  use_canonical s = record s {
    table = on_canonical;
    links_table = on_canonical;
    aliases_table = on_canonical;
  }

  -- `create_fts_index`, `try_optimize` and the vector index; what fails is logged.
  unfoldable pub build_indexes : VectorSettings → Indexer L → Indexer L × Reason
  unfolding call maybe_create_vector_index
  build_indexes v s =
      let (indexed, _) = call (canonical chunks) create_fts_index s in
      let (optimized, _) = call (canonical chunks) optimize indexed in
      maybe_create_vector_index v true optimized

  unfoldable pub end_commit :
      VectorSettings → Progress → ℕ × ℕ → Indexer L × Option (Unit {0}) → Indexer L × FullResult × ℕ
  unfolding rollback failure_stats use_canonical build_indexes was_created
  end_commit v p totals (s, none) =
      let (s', logged) = rollback s.snapshots s in failure_stats failed p logged s'
  end_commit v p totals (s, some _) =
      let (s', reason) = build_indexes v (use_canonical s) in
      (
        record s' { operations_since_compact = 0 },
        stats (record {
          status = completed;
          total_notes = p.notes_indexed;
          total_chunks = p.total_chunks;
          parse_errors = 0;
          total_links = totals.0;
          total_aliases = totals.1;
          vector_index_created = was_created reason;
          previous_index_preserved = false;
        }),
        0,
      )

  unfoldable pub end_graph :
      VectorSettings → Progress → Indexer L × Option (ℕ × ℕ) → Indexer L × FullResult × ℕ
  unfolding failure_stats end_commit commit
  end_graph v p (s, none) = failure_stats failed p 0 s
  end_graph v p (s, some totals) = end_commit v p totals (commit (record s { snapshots = [] }))

  module _ (v : VectorSettings) (embed_corpus : List Text → Option (List (List ℕ)))
      (normalize stem : Text → Text) where
    unfoldable pub end_last : Indexer L × Progress × Stop → Indexer L × FullResult × ℕ
    unfolding failure_stats failure_or_again end_graph index_graph
    end_last (s, p, interrupted) = failure_stats failed p 0 s
    end_last (s, p, raised) = failure_stats failed p 0 s
    end_last (s, p, finished) =
        if leb 1 p.parse_errors
        then failure_or_again failed p 0 s
        else end_graph v p (index_graph normalize stem p s)

    unfoldable pub end_loop : Indexer L × Progress × Stop → Indexer L × FullResult × ℕ
    unfolding failure_stats failure_or_again end_last store_last
    end_loop (s, p, interrupted) = failure_or_again interrupted_early p 0 s
    end_loop (s, p, raised) = failure_stats failed p 0 s
    end_loop (s, p, finished) = end_last (store_last embed_corpus p s)

    unfoldable pub run_loop :
        ℕ → List Completed → Indexer L × Option (Unit {0}) → Indexer L × FullResult × ℕ
    unfolding failure_stats end_loop collect_notes
    run_loop batch_size notes (s, none) = failure_stats failed no_progress 0 s
    run_loop batch_size notes (s, some _) =
        end_loop (collect_notes embed_corpus batch_size notes no_progress s)

    -- The method without `dry_run`, under the write lock: the failed rollbacks that were logged stand
    -- beside the result.
    unfoldable pub full_reindex : ℕ → List Completed → Indexer L → Indexer L × FullResult × ℕ
    unfolding run_loop reset_staging_tables use_staging
    full_reindex batch_size notes s =
        run_loop batch_size notes (continue (reset_staging_tables s) (λ _. use_staging))
