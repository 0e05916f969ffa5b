-- ===== src/Indexer/FullReindex/Staging.antt =====
-- `full_reindex` of src/vault_search/core/indexer.py up to its commit: the notes are parsed and put into
-- the staging tables, batch by batch.
use vault_search_mcp.Prelude.{
  ℕ, Bool, true, false, Option, none, some, List, [], ◌∷◌, ◌++◌, ◌+◌, if◌then◌else◌, nat_eq,
  string_eq, length, ◌&&◌, take, leb, map,
}
use vault_search_mcp.Prelude.Text.{Text, text_eq}
use vault_search_mcp.Collect.{ChunkRecord}
use vault_search_mcp.Indexer.Database.{
  Lance, Row, LinkRecord, ChunkWithVector, chunk_row, link_row, chunks, links, aliases, staging,
  create, add,
}
use vault_search_mcp.Indexer.State.{
  Indexer, Io, ◌>>=◌, ◌>>◌, pure, fail, call, ensure_table, on_staging, index_aliases, list_tables,
}
use vault_search_mcp.Indexer.ReindexNote.Run.{
  ParseResult, ParseStatus, success, no_chunks, parse_error, unsupported, checked, texts_of,
}
use vault_search_mcp.Indexer.Resolve.{resolve_link_targets}

-- A future as it completes: whether a shutdown was requested by then, the note and its `ParseResult`.
pub record Completed : Type 0 where
  pub shutdown : Bool
  pub path : Text
  pub result : ParseResult

-- `_parse_note`, an unexpected exception being an error result.
unfoldable pub parse_note : ℕ → Option ParseResult → ParseResult
parse_note max_chunks none = record { status = parse_error; chunks = []; links = []; aliases = [] }
parse_note max_chunks (some result) = record result { chunks = take max_chunks result.chunks }

-- The local variables of the loop.
pub record Progress : Type 0 where
  pub notes_indexed : ℕ
  pub total_chunks : ℕ
  pub parse_errors : ℕ
  pub batch : List ChunkRecord
  pub all_links : List LinkRecord
  pub all_aliases : List (Text × List Text)

abbrev pub no_progress : Progress
no_progress = record {
  notes_indexed = 0;
  total_chunks = 0;
  parse_errors = 0;
  batch = [];
  all_links = [];
  all_aliases = [];
}

pub data Stop : Type 0 where
  finished interrupted raised : Stop

unfoldable pub with_aliases : Text → List Text → List (Text × List Text) → List (Text × List Text)
with_aliases path [] known = known
with_aliases path (name ∷ names) known = known ++ (path, name ∷ names) ∷ []

-- A note that was parsed.
unfoldable pub extend : Completed → Progress → Progress
unfolding with_aliases
extend e p = record p {
  notes_indexed = p.notes_indexed + 1;
  batch = p.batch ++ e.result.chunks;
  all_links = p.all_links ++ e.result.links;
  all_aliases = with_aliases e.path e.result.aliases p.all_aliases;
}

unfoldable pub note_result : Completed → ParseStatus → Progress → Progress
unfolding extend
note_result e success p = extend e p
note_result e parse_error p = record p { parse_errors = p.parse_errors + 1 }
note_result e no_chunks p = p
note_result e unsupported p = p

unfoldable pub is_success : ParseStatus → Bool
is_success success = true
is_success parse_error = false
is_success no_chunks = false
is_success unsupported = false

unfoldable pub as_rows : Option (List ChunkWithVector) → Option (List Row)
as_rows none = none
as_rows (some cs) = some (map chunk_row cs)

-- The batch with its vectors; a count that differs is a ValueError.
unfoldable pub to_rows : (List Text → Option (List (List ℕ))) → List ChunkRecord → Option (List Row)
unfolding checked texts_of as_rows
to_rows embed_corpus batch = as_rows (checked batch (embed_corpus (texts_of batch)))

module _ {L : Lance} where
  -- `_reset_staging_tables`, which makes each table empty, and the handles.
  unfoldable pub reset_staging_tables : Io L (Unit {0})
  unfolding list_tables call
  reset_staging_tables = do
    names ← list_tables
    call (staging chunks) (create [])
    call (staging links) (create [])
    call (staging aliases) (create [])

  unfoldable pub use_staging : Io L (Unit {0})
  use_staging s = (
    record s { table = on_staging; links_table = on_staging; aliases_table = on_staging },
    some tt,
  )

  unfoldable pub add_batch : ℕ → Option (List Row) → Io L ℕ
  unfolding call
  add_batch n none = fail
  add_batch n (some rows) = do call (staging chunks) (add rows); pure n

module _ {L : Lance} (embed_corpus : List Text → Option (List (List ℕ))) where
  -- `_store_staging_batch`
  unfoldable pub store_staging_batch : List ChunkRecord → Io L ℕ
  unfolding add_batch to_rows
  store_staging_batch batch = add_batch (length batch) (to_rows embed_corpus batch)

  -- The batch was stored, or that raised.
  unfoldable pub after_store : Progress → Indexer L × Option ℕ → Indexer L × Progress × Stop
  after_store p (s, none) = (s, p, raised)
  after_store p (s, some n) =
      (s, record p { total_chunks = p.total_chunks + n; batch = [] }, finished)

  -- `if len(batch) >= batch_size`, behind a note that was parsed.
  unfoldable pub store_if : ℕ → Bool → Progress → Indexer L → Indexer L × Progress × Stop
  unfolding after_store store_staging_batch
  store_if batch_size parsed p s =
      if parsed && leb batch_size (length p.batch)
      then after_store p (store_staging_batch p.batch s)
      else (s, p, finished)

  -- The loop over the futures.
  unfoldable pub collect_notes :
      ℕ → List Completed → Progress → Indexer L → Indexer L × Progress × Stop
  unfolding note_result is_success store_if
  collect_notes batch_size [] p s = (s, p, finished)
  collect_notes batch_size (e ∷ rest) p s =
      let (s', p', stop) =
        store_if batch_size (is_success e.result.status) (note_result e e.result.status p) s in
      let next = collect_notes batch_size rest p' s' in
      if e.shutdown then (s, p, interrupted) else elim stop [
        | finished ↦ next
        | interrupted ↦ (s', p', interrupted)
        | raised ↦ (s', p', raised)
      ]

  -- What is left of the last batch.
  unfoldable pub store_last : Progress → Indexer L → Indexer L × Progress × Stop
  unfolding store_if
  store_last p s = store_if 1 true p s

module _ {L : Lance} where
  -- `_index_links`
  unfoldable pub index_links : List LinkRecord → Io L ℕ
  unfolding ensure_table call
  index_links [] = pure 0
  index_links (l ∷ rest) = do
    t ← ensure_table links
    call t (add (map link_row (l ∷ rest)))
    pure (length (l ∷ rest))

  unfoldable pub index_all_aliases : (Text → Text) → List (Text × List Text) → Io L ℕ
  unfolding index_aliases
  index_all_aliases normalize [] = pure 0
  index_all_aliases normalize ((path, names) ∷ rest) = do
    n ← index_aliases normalize path names
    m ← index_all_aliases normalize rest
    pure (n + m)

  -- The aliases, the links, and where the links lead.
  unfoldable pub index_graph : (normalize stem : Text → Text) → Progress → Io L (ℕ × ℕ)
  unfolding index_all_aliases index_links resolve_link_targets
  index_graph normalize stem p = do
    total_aliases ← index_all_aliases normalize p.all_aliases
    total_links ← index_links p.all_links
    resolved ← resolve_link_targets normalize stem
    pure (total_links, total_aliases)
