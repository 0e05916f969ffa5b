-- ===== src/Indexer/SyncCheck/Run.antt =====
-- `sync_check` of src/vault_search/core/indexer.py and `scan_vault` of core/scanner.py. The lists that
-- come from Python sets are in the dictionary's order here; times are milliseconds.
use vault_search_mcp.Prelude.{
  ℕ, Bool, true, false, not, Option, none, some, List, [], ◌∷◌, ◌++◌, ◌+◌, if◌then◌else◌, ltb,
  nat_eq, string_eq, ◌==◌, length, ◌&&◌, ◌||◌, String,
}
use vault_search_mcp.Prelude.Text.{Text, text_eq}
use vault_search_mcp.Dict.{Dict, lookup, contains, insert}
use vault_search_mcp.Indexer.Database.{Lance, Row, chunk_row, link_row, alias_row, chunks}
use vault_search_mcp.Indexer.State.{Indexer, Io, ensure_table, read, ◌>>=◌}
use vault_search_mcp.Indexer.ReindexNote.Run.{Answers, reindex_note}

-- An entry of `vault_path.rglob("*")`: where a link leads is `none` if that cannot be told, and the
-- time is `none` if `stat` or `relative_to` fails.
pub record FileEntry : Type 0 where
  pub relative_path : Text
  pub is_file : Bool
  pub suffix_lower : String
  pub parts : List String
  pub is_symlink : Bool
  pub stays_inside : Option Bool
  pub mtime : Option ℕ

unfoldable pub is_in : String → List String → Bool
is_in name [] = false
is_in name (other ∷ rest) = if name == other then true else is_in name rest

unfoldable pub any_in : List String → List String → Bool
unfolding is_in
any_in [] parts = false
any_in (folder ∷ folders) parts = is_in folder parts || any_in folders parts

unfoldable pub leads_inside : Option Bool → Bool
leads_inside none = false
leads_inside (some inside) = inside

module _ (indexable_extensions ignored_folders : List String) where
  unfoldable pub is_scanned : FileEntry → Bool
  unfolding is_in any_in leads_inside
  is_scanned f =
      f.is_file
      && is_in f.suffix_lower indexable_extensions
      && not (any_in ignored_folders f.parts)
      && (not f.is_symlink || leads_inside f.stays_inside)

  unfoldable pub scan_vault : List FileEntry → List FileEntry
  unfolding is_scanned
  scan_vault [] = []
  scan_vault (f ∷ files) = if is_scanned f then f ∷ scan_vault files else scan_vault files

-- `vault_map`
unfoldable pub map_file : Text → Option ℕ → Dict Text ℕ → Dict Text ℕ
map_file path none known = known
map_file path (some mtime) known = insert path mtime known

unfoldable pub vault_map : List FileEntry → Dict Text ℕ → Dict Text ℕ
unfolding map_file
vault_map [] known = known
vault_map (f ∷ files) known = vault_map files (map_file f.relative_path f.mtime known)

unfoldable pub add_first : Text → Text → Dict Text Text → Dict Text Text
add_first path time known = if contains path known then known else insert path time known

-- `indexed_map`: the first time of each path.
unfoldable pub indexed_map : List Row → Dict Text Text → Dict Text Text
unfolding add_first
indexed_map [] known = known
indexed_map (chunk_row c ∷ rows) known =
    indexed_map rows (add_first c.chunk.note_path c.chunk.modified_at known)
indexed_map (link_row l ∷ rows) known = indexed_map rows known
indexed_map (alias_row a ∷ rows) known = indexed_map rows known

-- The keys of the first dictionary that are not in the second.
unfoldable pub only_in {ℓ κ} : {V : Type ℓ} {W : Type κ} → Dict Text V → Dict Text W → List Text
only_in [] other = []
only_in ((path, v) ∷ d) other =
    if contains path other then only_in d other else path ∷ only_in d other

-- `datetime.fromisoformat(text).timestamp()`; `none` where it raises.
module _ (timestamp : Text → Option ℕ) where
  unfoldable pub is_newer : ℕ → Option ℕ → Bool
  is_newer vault_mtime none = true
  is_newer vault_mtime (some indexed_mtime) = ltb (indexed_mtime + 1000) vault_mtime

  unfoldable pub is_modified : ℕ → Option Text → Bool
  unfolding is_newer
  is_modified mtime none = false
  is_modified mtime (some time) = is_newer mtime (timestamp time)

  unfoldable pub modified : Dict Text ℕ → Dict Text Text → List Text
  unfolding is_modified
  modified [] index = []
  modified ((path, mtime) ∷ d) index =
      if is_modified mtime (lookup path index) then path ∷ modified d index else modified d index

pub record SyncStats : Type 0 where
  pub vault_files : ℕ
  pub indexed_files : ℕ
  pub new_files : ℕ
  pub modified_files : ℕ
  pub deleted_files : ℕ
  pub synced : ℕ

-- An unreadable index counts as empty.
unfoldable pub rows_or_none : Option (List Row) → List Row
rows_or_none none = []
rows_or_none (some rows) = rows

-- A call of `reindex_note`: it runs with these answers from outside, or an exception leaves it, in
-- the state that is given.
pub data Attempt (L : Lance) : Type 0 where
  runs : Answers → Attempt L
  raises : (Indexer L → Indexer L) → Attempt L

module _ {L : Lance} (normalize : Text → Text) (max_chunks : ℕ) (attempts : Text → Attempt L) where
  -- `try: self.reindex_note(path); synced += 1`, an exception being logged. `reindex_note` reports
  -- its failures in its result, which is not read.
  unfoldable pub reindex_one : Attempt L → Text → Indexer L → Indexer L × ℕ
  unfolding reindex_note
  reindex_one (runs answers) path s =
      let (s', result, logged) = reindex_note normalize max_chunks answers path true s in (s', 1)
  reindex_one (raises left) path s = (left s, 0)

  -- The loops over the paths.
  unfoldable pub reindex_all : List Text → Indexer L → Indexer L × ℕ
  unfolding reindex_one
  reindex_all [] s = (s, 0)
  reindex_all (path ∷ paths) s =
      let (s', one) = reindex_one (attempts path) path s in
      let (s'', n) = reindex_all paths s' in (s'', one + n)

  module _ (timestamp : Text → Option ℕ) where
    unfoldable pub read_index : Io L (List Row)
    unfolding ensure_table read
    read_index = do t ← ensure_table chunks; read t

    unfoldable pub synced : Bool → List Text → List Text → Indexer L → Indexer L × ℕ
    unfolding reindex_all
    synced auto_sync gone changed s =
        let (s', n) = reindex_all gone s in
        let (s'', m) = reindex_all changed s' in if auto_sync then (s'', n + m) else (s, 0)

    unfoldable pub sync_check :
        List String → List String → List FileEntry → Bool → Indexer L → Indexer L × SyncStats
    unfolding scan_vault vault_map indexed_map only_in modified read_index rows_or_none synced
    sync_check extensions ignored files auto_sync s =
        let vault = vault_map (scan_vault extensions ignored files) [] in
        let (s', rows) = read_index s in
        let index = indexed_map (rows_or_none rows) [] in
        let new_files = only_in vault index in
        let gone = only_in index vault in
        let changed = modified timestamp vault index in
        let (s'', n) = synced auto_sync gone (new_files ++ changed) s' in
        (
          s'',
          record {
            vault_files = length vault;
            indexed_files = length index;
            new_files = length new_files;
            modified_files = length changed;
            deleted_files = length gone;
            synced = n;
          },
        )
