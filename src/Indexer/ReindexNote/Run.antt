-- ===== src/Indexer/ReindexNote/Run.antt =====
-- `reindex_note` of src/vault_search/core/indexer.py, with `_record_incremental_operation`,
-- `_schedule_fts_rebuild_async`, `compact` and `compact_table` of core/fts_builder.py. The write lock
-- is held from the look for the file on.
use vault_search_mcp.Prelude.{
  ℕ, Bool, true, false, not, Option, none, some, List, [], ◌∷◌, ◌+◌, if◌then◌else◌, ltb, suc, zero,
  nat_eq, string_eq, ◌==◌, length, take, ◌&&◌,
}
use vault_search_mcp.Prelude.Text.{Text, text_eq}
use vault_search_mcp.Collect.{ChunkRecord}
use vault_search_mcp.Indexer.Database.{
  Lance, Table, ChunkWithVector, LinkRecord, chunks, optimize, create_fts_index, canonical,
}
use vault_search_mcp.Indexer.State.{
  Indexer, table_of, Handle, closed, on_canonical, on_staging, ensure_table, done,
}
use vault_search_mcp.Indexer.NoteRecords.Apply.{Applied, applied, raised, apply_note_records}
use vault_search_mcp.Indexer.Breaker.{check_circuit_breaker}

pub data ReindexStatus : Type 0 where
  updated empty deleted parse_failed error_add_failed rejected_path_traversal rejected_extension
        circuit_breaker_open :
      ReindexStatus

-- The keys that may be missing are `false` or `none`.
pub record ReindexResult : Type 0 where
  pub chunks_indexed : ℕ
  pub status : ReindexStatus
  pub links_indexed : Option ℕ
  pub aliases_indexed : Option ℕ
  pub id_added : Bool
  pub auto_compacted : Bool

unfoldable pub plain : ReindexStatus → ReindexResult
plain status = record {
  chunks_indexed = 0;
  status = status;
  links_indexed = none;
  aliases_indexed = none;
  id_added = false;
  auto_compacted = false;
}

pub data ParseStatus : Type 0 where
  success no_chunks parse_error unsupported : ParseStatus

pub record ParseResult : Type 0 where
  pub status : ParseStatus
  pub chunks : List ChunkRecord
  pub links : List LinkRecord
  pub aliases : List Text

-- What `ensure_note_id` did; any exception but FileNotFoundError is logged and ignored.
pub data IdOutcome : Type 0 where
  id_generated id_kept file_missing id_failed : IdOutcome

-- What the other parts answer during one call: the checks of the path, the clock, the two looks for
-- the file, `ensure_note_id`, the parser, the embedding model (`none` for an exception), and whether
-- a thread can be started.
pub record Answers : Type 0 where
  pub path_is_valid : Bool
  pub is_indexable : Bool
  pub is_md : Bool
  pub now : ℕ
  pub found : Bool
  pub id : IdOutcome
  pub parsed : ParseResult
  pub still_found : Bool
  pub embed_corpus : List Text → Option (List (List ℕ))
  pub thread_starts : Bool

-- AUTO_COMPACT_THRESHOLD
abbrev pub auto_compact_threshold : ℕ
auto_compact_threshold = 100

unfoldable pub texts_of : List ChunkRecord → List Text
texts_of [] = []
texts_of (c ∷ cs) = c.text ∷ texts_of cs

-- zip(chunks, vectors, strict=True), the lengths being equal.
unfoldable pub with_vectors : List ChunkRecord → List (List ℕ) → List ChunkWithVector
with_vectors [] vectors = []
with_vectors (c ∷ cs) [] = []
with_vectors (c ∷ cs) (v ∷ vectors) = record { chunk = c; vector = v } ∷ with_vectors cs vectors

-- The vectors, if there is one for each chunk; else a ValueError.
unfoldable pub checked : List ChunkRecord → Option (List (List ℕ)) → Option (List ChunkWithVector)
unfolding with_vectors
checked cs none = none
checked cs (some vectors) =
    if length vectors == length cs then some (with_vectors cs vectors) else none

unfoldable pub embed : Answers → List ChunkRecord → Option (List ChunkWithVector)
unfolding texts_of checked
embed a cs = checked cs (a.embed_corpus (texts_of cs))

unfoldable pub positive : ℕ → Option ℕ
positive zero = none
positive (suc n) = some (suc n)

module _ {L : Lance} where
  -- `compact_table`, which logs a failure.
  unfoldable pub compact_table : Table → Indexer L → Indexer L × Bool
  compact_table t s =
      let (db, returned) = L.call t optimize s.db in (record s { db = db }, returned)

  unfoldable pub compacted : Indexer L × Bool → Indexer L × Bool
  compacted (s, true) = (record s { operations_since_compact = 0 }, true)
  compacted (s, false) = (s, false)

  unfoldable pub record_incremental_operation : Table → Indexer L → Indexer L × Bool
  unfolding compact_table compacted
  record_incremental_operation t s =
      let counted = record s { operations_since_compact = s.operations_since_compact + 1 } in
      if ltb counted.operations_since_compact auto_compact_threshold
      then (counted, false)
      else compacted (compact_table t counted)

  -- `compact`, whose counter is reset whether the table was compacted or not.
  unfoldable pub end_compact : Indexer L × Option Table → Indexer L × Bool
  unfolding compact_table
  end_compact (s, none) = (s, false)
  end_compact (s, some t) =
      let (s', done) = compact_table t s in (record s' { operations_since_compact = 0 }, done)

  unfoldable pub compact : Indexer L → Indexer L × Bool
  unfolding end_compact ensure_table
  compact s = end_compact (ensure_table chunks s)

  -- One rebuild at a time; the flag is taken back if the thread does not start.
  unfoldable pub schedule_fts_rebuild : Bool → Indexer L → Indexer L
  schedule_fts_rebuild starts s =
      if s.fts_rebuild_in_progress then s else record s { fts_rebuild_in_progress = starts }

  unfoldable pub rebuild_handle : Handle → Indexer L → Indexer L
  rebuild_handle closed s = s
  rebuild_handle on_canonical s = record s {
    db = (L.call (canonical chunks) create_fts_index s.db).0;
  }
  rebuild_handle on_staging s = record s {
    db = (L.call (table_of on_staging chunks) create_fts_index s.db).0;
  }

  -- The thread: it does nothing without a table, and always clears the flag.
  unfoldable pub rebuild_fts : Indexer L → Indexer L
  unfolding rebuild_handle
  rebuild_fts s = record (rebuild_handle s.table s) { fts_rebuild_in_progress = false }

  unfoldable pub schedule_if : Bool → Bool → Indexer L → Indexer L
  unfolding schedule_fts_rebuild
  schedule_if compacted starts s = if compacted then schedule_fts_rebuild starts s else s

module _ {L : Lance} (normalize_link_target : Text → Text) (max_chunks_per_note : ℕ)
    (a : Answers) where
  -- The count of failed restores that were logged stands beside the result.
  unfoldable pub end_delete : Indexer L × Applied → Indexer L × ReindexResult × ℕ
  unfolding record_incremental_operation plain
  end_delete (s, raised n) = (s, plain error_add_failed, n)
  end_delete (s, applied l k) =
      ((record_incremental_operation (table_of s.table chunks) s).0, plain deleted, 0)

  -- The note's records are removed.
  unfoldable pub delete_records : Text → Indexer L → Indexer L × ReindexResult × ℕ
  unfolding end_delete apply_note_records
  delete_records path s = end_delete (apply_note_records normalize_link_target path [] [] [] s)

  unfoldable pub end_empty : Indexer L × Applied → Indexer L × ReindexResult × ℕ
  unfolding record_incremental_operation plain schedule_if
  end_empty (s, raised n) = (s, plain error_add_failed, n)
  end_empty (s, applied l k) =
      let (s', compacted) = record_incremental_operation (table_of s.table chunks) s in
      (
        schedule_if compacted a.thread_starts s',
        record (plain empty) { auto_compacted = compacted },
        0,
      )

  unfoldable pub end_update : ℕ → Bool → Indexer L × Applied → Indexer L × ReindexResult × ℕ
  unfolding record_incremental_operation plain schedule_if positive
  end_update count id_added (s, raised n) = (s, plain error_add_failed, n)
  end_update count id_added (s, applied l k) =
      let (s', compacted) = record_incremental_operation (table_of s.table chunks) s in
      (
        schedule_if compacted a.thread_starts s',
        record {
          chunks_indexed = count;
          status = updated;
          links_indexed = positive l;
          aliases_indexed = positive k;
          id_added = id_added;
          auto_compacted = compacted;
        },
        0,
      )

  unfoldable pub store :
      Text → Bool → Option (List ChunkWithVector) → Indexer L → Indexer L × ReindexResult × ℕ
  unfolding end_update apply_note_records plain
  store path id_added none s = (s, plain error_add_failed, 0)
  store path id_added (some cs) s =
      end_update (length cs) id_added
        (apply_note_records normalize_link_target path cs a.parsed.links a.parsed.aliases s)

  unfoldable pub index_chunks :
      Text → Bool → List ChunkRecord → Indexer L → Indexer L × ReindexResult × ℕ
  unfolding store embed end_empty apply_note_records
  index_chunks path id_added [] s =
      end_empty (apply_note_records normalize_link_target path [] [] [] s)
  index_chunks path id_added (c ∷ cs) s = store path id_added (embed a (c ∷ cs)) s

  unfoldable pub index_parsed :
      Text → Bool → ParseStatus → Indexer L → Indexer L × ReindexResult × ℕ
  unfolding index_chunks delete_records plain
  index_parsed path id_added parse_error s =
      if a.still_found then (s, plain parse_failed, 0) else delete_records path s
  index_parsed path id_added success s =
      index_chunks path id_added (take max_chunks_per_note a.parsed.chunks) s
  index_parsed path id_added no_chunks s =
      index_chunks path id_added (take max_chunks_per_note a.parsed.chunks) s
  index_parsed path id_added unsupported s =
      index_chunks path id_added (take max_chunks_per_note a.parsed.chunks) s

  -- Behind `ensure_note_id`.
  unfoldable pub index_with_id : Text → IdOutcome → Indexer L → Indexer L × ReindexResult × ℕ
  unfolding index_parsed delete_records
  index_with_id path file_missing s = delete_records path s
  index_with_id path id_generated s = index_parsed path true a.parsed.status s
  index_with_id path id_kept s = index_parsed path false a.parsed.status s
  index_with_id path id_failed s = index_parsed path false a.parsed.status s

  -- Under the write lock.
  unfoldable pub index_locked : Text → Bool → Indexer L → Indexer L × ReindexResult × ℕ
  unfolding index_with_id delete_records
  index_locked path auto_generate_id s =
      if not a.found
      then delete_records path s
      else index_with_id path (if auto_generate_id && a.is_md then a.id else id_kept) s

  unfoldable pub reindex_note : Text → Bool → Indexer L → Indexer L × ReindexResult × ℕ
  unfolding index_locked check_circuit_breaker plain
  reindex_note path auto_generate_id s =
      if not a.path_is_valid
      then (s, plain rejected_path_traversal, 0)
      else if not a.is_indexable
      then (s, plain rejected_extension, 0)
      else let (attempts, blocked) = check_circuit_breaker path a.now s.reindex_attempts in
        let counted = record s { reindex_attempts = attempts } in
        if blocked
        then (counted, plain circuit_breaker_open, 0)
        else index_locked path auto_generate_id counted
