-- ===== src/Tests/Indexer.antt =====
-- The indexer of src/vault_search/core/indexer.py, run on one note over a database in memory.
use vault_search_mcp.Prelude.{
  if◌then◌else◌, ◌==◌, ℕ, Bool, true, false, Option, none, some, List, [], ◌∷◌, ◌≡◌, refl, arith,
  nat_eq, suc, string_eq, map, length, min,
}
use vault_search_mcp.Prelude.Text.{Text, text_eq, text_beq}
use vault_search_mcp.Dict.{lookup}
use vault_search_mcp.Collect.{ChunkRecord}
use vault_search_mcp.Indexer.Database.{
  Table, Row, chunks, canonical, chunk_row, link_row, ChunkWithVector, LinkRecord, note_of,
}
use vault_search_mcp.Indexer.State.{Indexer, closed, on_staging, alias_records}
use vault_search_mcp.Indexer.NoteRecords.Apply.{apply_note_records}
use vault_search_mcp.Indexer.NoteRecords.Refines.{apply_note_records-IsAtomic}
use vault_search_mcp.Indexer.NoteRecords.Replacing.{IsAtomic, replaced, target}
use vault_search_mcp.Indexer.Breaker.{
  admissions, checks_of, admissions-check_circuit_breaker, drop_expired,
}
use vault_search_mcp.Indexer.ReindexNote.Run.{Answers, success, id_kept, reindex_note}
use vault_search_mcp.Indexer.ReindexNote.Truthful.{reindex_note-IsTruthful}
use vault_search_mcp.Indexer.ReindexNote.Statuses.{IsTruthful}
use vault_search_mcp.Indexer.SyncCheck.Run.{
  Attempt, runs, raises, FileEntry, scan_vault, vault_map, indexed_map, rows_or_none, reindex_all,
  read_index, sync_check,
}
use vault_search_mcp.Indexer.SyncCheck.Stale.{
  times, once, is_stale, stale, sync_check_lem, returned,
}
use vault_search_mcp.Indexer.FullReindex.Completes.{result_status, result_status-full_reindex}
use vault_search_mcp.Indexer.FullReindex.Batches.{errors_in, one_error}
use vault_search_mcp.Indexer.FullReindex.Staging.{Completed}
use vault_search_mcp.Indexer.Vector.{VectorSettings, ivf_pq}
use vault_search_mcp.Indexer.FullReindex.Run.{completed, full_reindex}
use vault_search_mcp.Indexer.FullReindex.Promised.{IsAllOrNothing}
use vault_search_mcp.Indexer.FullReindex.Rebuilt.{full_reindex-IsAllOrNothing}
use vault_search_mcp.Tests.Memory.{memory, memory-IsLawful, steady, steady-IsReliable}

abbrev a_md : Text
a_md = 97 ∷ []

abbrev b_md : Text
b_md = 98 ∷ []

abbrev chunk_of : Text → ℕ → ChunkRecord
chunk_of path letter = record {
  note_path = path;
  note_title = path;
  folder = [];
  headers = [];
  tags = [];
  modified_at = [];
  text = letter ∷ [];
  id = [];
  created_at = [];
  updated_at = [];
  description = [];
  status = [];
  note_type = [];
  category = [];
  project = [];
  source = [];
}

abbrev row_of : Text → ℕ → Row
row_of path letter = chunk_row (record { chunk = chunk_of path letter; vector = letter ∷ [] })

abbrev link_of : Text → LinkRecord
link_of path = record {
  from_note_path = path;
  from_note_title = path;
  link_type = [];
  link_target = b_md;
  link_target_normalized = b_md;
  to_note_path = [];
  is_resolved = false;
  alias = [];
  heading = [];
  block_ref = [];
  context = [];
  modified_at = [];
}

abbrev stored : Table → List Row
stored (canonical chunks) = row_of a_md 1 ∷ row_of b_md 2 ∷ []
stored _ = []

-- The calls fail as the list says.
abbrev indexer : List Bool → Indexer memory
indexer faults = record {
  db = record { tables = stored; faults = faults };
  table = closed;
  links_table = closed;
  aliases_table = closed;
  operations_since_compact = 0;
  reindex_attempts = [];
  fts_rebuild_in_progress = false;
  snapshots = [];
}

abbrev new_rows : List ChunkWithVector
new_rows = record { chunk = chunk_of a_md 3; vector = 3 ∷ [] } ∷ []

-- The calls that open the chunk table and delete and add its rows return; the next one raises.
abbrev failing_late : Indexer memory
failing_late = indexer (false ∷ false ∷ false ∷ true ∷ [])

apply_note_records-IsAtomic_example :
    IsAtomic memory-IsLawful
      (λ t. t)
      stored
      a_md
      (target failing_late)
      (replaced
        (target failing_late)
        a_md
        (map chunk_row new_rows)
        (map link_row (link_of a_md ∷ []))
        (alias_records (λ t. t) a_md (b_md ∷ []))
        stored)
      (1, length (alias_records (λ t. t) a_md (b_md ∷ [])))
      (apply_note_records (λ t. t) a_md new_rows (link_of a_md ∷ []) (b_md ∷ []) failing_late)
unfolding note_of
apply_note_records-IsAtomic_example =
    apply_note_records-IsAtomic memory-IsLawful (λ t. t) failing_late a_md new_rows
      (link_of a_md ∷ []) (b_md ∷ []) (refl, tt) (refl, tt)

abbrev answers : Answers
answers = record {
  path_is_valid = true;
  is_indexable = true;
  is_md = true;
  now = 5;
  found = true;
  id = id_kept;
  parsed = record {
    status = success;
    chunks = chunk_of a_md 3 ∷ chunk_of a_md 4 ∷ [];
    links = link_of a_md ∷ [];
    aliases = b_md ∷ [];
  };
  still_found = true;
  embed_corpus = λ texts. some texts;
  thread_starts = true;
}

reindex_note-IsTruthful_example :
    IsTruthful memory-IsLawful
      (λ t. t)
      1
      answers
      a_md
      (indexer [])
      (reindex_note (λ t. t) 1 answers a_md true (indexer []))
unfolding note_of
reindex_note-IsTruthful_example =
    reindex_note-IsTruthful memory-IsLawful (λ t. t) 1 answers a_md (refl, (refl, tt)) (refl, tt)
      true (indexer [])

-- Four checks of a note and one of another, all within the window of the first.
admissions-check_circuit_breaker_example :
    admissions a_md ((a_md, 5) ∷ (a_md, 6) ∷ (b_md, 7) ∷ (a_md, 8) ∷ (a_md, 60005) ∷ []) []
    ≡ min 3 4
unfolding checks_of text_beq drop_expired lookup
admissions-check_circuit_breaker_example =
    admissions-check_circuit_breaker a_md 5 ((a_md, 6) ∷ (b_md, 7) ∷ (a_md, 8) ∷ (a_md, 60005) ∷ [])
      [] refl (omega arith)

abbrev file : Text → Option ℕ → FileEntry
file path mtime = record {
  relative_path = path;
  is_file = true;
  suffix_lower = ".md";
  parts = [];
  is_symlink = false;
  stays_inside = none;
  mtime = mtime;
}

-- The note a is newer on disk, c is new, and b is gone.
abbrev files : List FileEntry
files = file a_md (some 5000) ∷ file (99 ∷ []) (some 7) ∷ []

-- The call for b raises.
abbrev attempts : Text → Attempt memory
attempts path = if path == (98 ∷ []) then raises (λ s. s) else runs answers

sync_check_lem_example :
    let before = stale (λ t. t) 1 attempts (λ t. some 0) (".md" ∷ []) [] files (indexer []) in
    let ended =
      sync_check (λ t. t) 1 attempts (λ t. some 0) (".md" ∷ []) [] files true (indexer []) in
    let read = read_index (λ t. t) 1 attempts (λ t. some 0) (indexer []) in
    ((path : Text)
      → times path before
        ≡ once (
            is_stale
              (λ t. some 0)
              (lookup path (vault_map (scan_vault (".md" ∷ []) [] files) []))
              (lookup path (indexed_map (rows_or_none read.1) []))))
    × (ended.0 ≡ (reindex_all (λ t. t) 1 attempts before read.0).0)
    × (ended.1.synced ≡ returned (λ t. t) 1 attempts before)
sync_check_lem_example =
    sync_check_lem (λ t. t) 1 attempts (λ t. some 0) (".md" ∷ []) [] files (indexer []) true

abbrev settings : VectorSettings
settings = record {
  auto_create = true;
  min_chunks = 1;
  index_type = ivf_pq;
  num_sub_vectors = 2;
  dimension = 4;
  indices = some [];
}

abbrev note_of_letter : Text → ℕ → Completed
note_of_letter path letter = record {
  shutdown = false;
  path = path;
  result = record {
    status = success;
    chunks = chunk_of path letter ∷ chunk_of path (suc letter) ∷ [];
    links = link_of path ∷ [];
    aliases = b_md ∷ [];
  };
}

-- The second note fills the batch.
abbrev notes : List Completed
notes = note_of_letter a_md 5 ∷ note_of_letter b_md 7 ∷ []

full_reindex-IsAllOrNothing_example :
    IsAllOrNothing memory-IsLawful stored notes
      (full_reindex settings (λ texts. some texts) (λ t. t) (λ t. t) 3 notes (indexer []))
full_reindex-IsAllOrNothing_example =
    full_reindex-IsAllOrNothing memory-IsLawful settings (λ texts. some texts) (λ t. t) (λ t. t) 3
      notes (indexer [])

abbrev steady_indexer : Indexer steady
steady_indexer = record {
  db = stored;
  table = closed;
  links_table = on_staging;
  aliases_table = closed;
  operations_since_compact = 0;
  reindex_attempts = [];
  fts_rebuild_in_progress = false;
  snapshots = [];
}

result_status-full_reindex_example :
    result_status
      (full_reindex settings (λ texts. some texts) (λ t. t) (λ t. t) 3 notes steady_indexer).1
    ≡ some completed
unfolding errors_in one_error
result_status-full_reindex_example =
    result_status-full_reindex (λ texts. some texts) (λ texts. (texts, refl, refl))
      steady-IsReliable settings (λ t. t) (λ t. t) 3 notes steady_indexer (refl, (refl, tt)) refl
