-- ===== src/Indexer/Stats.antt =====
-- `get_stats` and the preview of `full_reindex` of src/vault_search/core/indexer.py. Counting the rows
-- is reading them.
use vault_search_mcp.Prelude.{
  String, string_eq, ◌+◌, ℕ, Bool, true, false, Option, none, some, List, [], ◌∷◌, if◌then◌else◌,
  length, ltb, suc, nat_eq, ◌==◌, ◌+◌,
}
use vault_search_mcp.Prelude.Text.{Text, text_eq}
use vault_search_mcp.Dict.{Dict, lookup, insert}
use vault_search_mcp.Indexer.Database.{Lance, Row, chunk_row, link_row, alias_row, chunks}
use vault_search_mcp.Indexer.SyncCheck.Run.{FileEntry, scan_vault}
use vault_search_mcp.Indexer.State.{Indexer, Io, ◌>>=◌, ensure_table, read}

pub record IndexStats : Type 0 where
  pub total_chunks : ℕ
  pub unique_notes : ℕ
  pub last_modified : Option Text

unfoldable pub contains_path : Text → List Row → Bool
contains_path path [] = false
contains_path path (chunk_row c ∷ rows) =
    if c.chunk.note_path == path then true else contains_path path rows
contains_path path (link_row l ∷ rows) = contains_path path rows
contains_path path (alias_row a ∷ rows) = contains_path path rows

-- `pc.count_distinct`
unfoldable pub count_distinct : List Row → ℕ
unfolding contains_path
count_distinct [] = 0
count_distinct (chunk_row c ∷ rows) =
    let rest = count_distinct rows in
    if contains_path c.chunk.note_path rows then rest else suc rest
count_distinct (link_row l ∷ rows) = count_distinct rows
count_distinct (alias_row a ∷ rows) = count_distinct rows

-- The order of strings is that of their code points.
unfoldable pub is_before : Text → Text → Bool
is_before [] [] = false
is_before [] (d ∷ t) = true
is_before (c ∷ s) [] = false
is_before (c ∷ s) (d ∷ t) = if ltb c d then true else if c == d then is_before s t else false

unfoldable pub later : Text → Option Text → Option Text
unfolding is_before
later time none = some time
later time (some other) = if is_before time other then some other else some time

-- `pc.max`
unfoldable pub latest : List Row → Option Text
unfolding later
latest [] = none
latest (chunk_row c ∷ rows) = later c.chunk.modified_at (latest rows)
latest (link_row l ∷ rows) = latest rows
latest (alias_row a ∷ rows) = latest rows

-- An exception, or an empty table.
abbrev no_stats : IndexStats
no_stats = record { total_chunks = 0; unique_notes = 0; last_modified = none }

unfoldable pub stats_of : Option (List Row) → IndexStats
unfolding count_distinct latest
stats_of none = no_stats
stats_of (some []) = no_stats
stats_of (some (row ∷ rows)) = record {
  total_chunks = length (row ∷ rows);
  unique_notes = count_distinct (row ∷ rows);
  last_modified = latest (row ∷ rows);
}

-- `full_reindex(dry_run=True)`: how many notes there are of each extension.
pub record FullReindexPreview : Type 0 where
  pub would_index : ℕ
  pub notes_by_extension : Dict String ℕ
  pub batch_size : ℕ

unfoldable pub count_or_zero : Option ℕ → ℕ
count_or_zero none = 0
count_or_zero (some n) = n

unfoldable pub by_extension : List FileEntry → Dict String ℕ → Dict String ℕ
unfolding count_or_zero
by_extension [] known = known
by_extension (f ∷ files) known =
    by_extension files
      (insert f.suffix_lower (count_or_zero (lookup f.suffix_lower known) + 1) known)

unfoldable pub preview : List String → List String → List FileEntry → ℕ → FullReindexPreview
unfolding scan_vault by_extension
preview extensions ignored files batch_size =
    let notes = scan_vault extensions ignored files in
    record {
      would_index = length notes;
      notes_by_extension = by_extension notes [];
      batch_size = batch_size;
    }

module _ {L : Lance} where
  unfoldable pub read_chunks : Io L (List Row)
  unfolding ensure_table read
  read_chunks = do t ← ensure_table chunks; read t

  unfoldable pub get_stats : Indexer L → Indexer L × IndexStats
  unfolding read_chunks stats_of
  get_stats s = let (s', rows) = read_chunks s in (s', stats_of rows)
