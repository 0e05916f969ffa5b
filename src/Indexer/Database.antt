-- ===== src/Indexer/Database.antt =====
-- The LanceDB tables as src/vault_search/core/indexer.py uses them. LanceDB is no code of the
-- repository: `Lance` is what the indexer calls, and `IsLawful` what it relies on, which is that a
-- call is one commit, done whole or not at all, and that a version keeps its rows.
use vault_search_mcp.Prelude.{
  Bool, true, false, Option, none, some, List, [], ◌∷◌, ◌++◌, ◌≡◌, ◌&&◌, if◌then◌else◌, ◌==◌,
  nat_eq, string_eq, ℕ,
}
use vault_search_mcp.Prelude.Text.{Text, text_eq}
use vault_search_mcp.Collect.{ChunkRecord}

-- `ChunkWithVector`; the numbers of the vector are codes for its floats.
pub record ChunkWithVector : Type 0 where
  pub chunk : ChunkRecord
  pub vector : List ℕ

pub record LinkRecord : Type 0 where
  pub from_note_path : Text
  pub from_note_title : Text
  pub link_type : Text
  pub link_target : Text
  pub link_target_normalized : Text
  pub to_note_path : Text
  pub is_resolved : Bool
  pub alias : Text
  pub heading : Text
  pub block_ref : Text
  pub context : Text
  pub modified_at : Text

pub record AliasRecord : Type 0 where
  pub note_path : Text
  pub alias : Text
  pub alias_normalized : Text

pub data Row : Type 0 where
  chunk_row : ChunkWithVector → Row
  link_row : LinkRecord → Row
  alias_row : AliasRecord → Row

-- The column by which a note's records are deleted.
unfoldable pub note_of : Row → Text
note_of (chunk_row c) = c.chunk.note_path
note_of (link_row l) = l.from_note_path
note_of (alias_row a) = a.note_path

-- LANCEDB_TABLE, LINKS_TABLE and ALIASES_TABLE, each with its staging table.
pub data Kind : Type 0 where
  chunks links aliases : Kind

pub data Table : Type 0 where
  canonical staging : Kind → Table

unfoldable pub same_kind : Kind → Kind → Bool
same_kind chunks chunks = true
same_kind links links = true
same_kind aliases aliases = true
same_kind _ _ = false

unfoldable pub same_table : Table → Table → Bool
unfolding same_kind
same_table (canonical k) (canonical l) = same_kind k l
same_table (staging k) (staging l) = same_kind k l
same_table (canonical k) (staging l) = false
same_table (staging k) (canonical l) = false

-- The rows of other notes.
unfoldable pub without : Text → List Row → List Row
without path [] = []
without path (row ∷ rows) =
    if note_of row == path then without path rows else row ∷ without path rows

-- A link's key, by which `_resolve_link_targets` finds and deletes it.
unfoldable pub has_key : Text → Text → Text → Row → Bool
has_key path type target (link_row l) =
    l.from_note_path == path && (l.link_type == type && l.link_target == target)
has_key path type target (chunk_row c) = false
has_key path type target (alias_row a) = false

unfoldable pub without_link : Text → Text → Text → List Row → List Row
unfolding has_key
without_link path type target [] = []
without_link path type target (row ∷ rows) =
    if has_key path type target row
    then without_link path type target rows
    else row ∷ without_link path type target rows

-- The calls that may change a table.
pub data Call (V : Type 0) : Type 0 where
  open_table create_fts_index create_index optimize : Call V
  create : List Row → Call V
  delete_note : Text → Call V
  delete_link : Text → Text → Text → Call V
  add : List Row → Call V
  overwrite : List Row → Call V
  restore : V → Call V

-- `call` does a call on a table and says whether it returned; `list_tables` gives
-- the names that there are; `read` reads a table; these may raise. `rows` and `held` are
-- what a table holds now and what a version of it holds.
pub record Lance : Type 1 where
  pub Db : Type 0
  pub Version : Type 0
  pub call : Table → Call Version → Db → Db × Bool
  pub list_tables : Db → Db × Option (Table → Bool)
  pub version : Table → Db → Db × Option Version
  pub read : Table → Db → Db × Option (List Row)
  pub rows : Table → Db → List Row
  pub held : Table → Version → Db → Option (List Row)

unfoldable pub or_rows : Option (List Row) → List Row → List Row
or_rows none rows = rows
or_rows (some old) rows = old

-- What a call that returns leaves in its table.
unfoldable pub effect : {V : Type 0} → (V → Option (List Row)) → Call V → List Row → List Row
unfolding without without_link or_rows
effect held open_table rows = rows
effect held create_fts_index rows = rows
effect held create_index rows = rows
effect held optimize rows = rows
effect held (create new) rows = new
effect held (delete_note path) rows = without path rows
effect held (delete_link path type target) rows = without_link path type target rows
effect held (add new) rows = rows ++ new
effect held (overwrite new) rows = new
effect held (restore v) rows = or_rows (held v) rows

pub record IsLawful (L : Lance) : Type 0 where
  pub rows-call :
      (t u : Table) (c : Call L.Version) (db : L.Db)
      → L.rows u (L.call t c db).0 ≡ (
          if same_table t u && (L.call t c db).1
          then effect (λ v. L.held t v db) c (L.rows t db)
          else L.rows u db)
  pub held-call :
      (t u : Table) (c : Call L.Version) (v : L.Version) (db : L.Db) (rs : List Row)
      → L.held u v db ≡ some rs
      → L.held u v (L.call t c db).0 ≡ some rs
  pub rows-list_tables : (u : Table) (db : L.Db) → L.rows u (L.list_tables db).0 ≡ L.rows u db
  pub held-list_tables :
      (u : Table) (v : L.Version) (db : L.Db) → L.held u v (L.list_tables db).0 ≡ L.held u v db
  -- A table that is not there has no rows.
  pub absent :
      (t : Table) (db : L.Db) (names : Table → Bool)
      → (L.list_tables db).1 ≡ some names
      → names t ≡ false
      → L.rows t db ≡ []
  pub rows-version : (t u : Table) (db : L.Db) → L.rows u (L.version t db).0 ≡ L.rows u db
  pub held-version :
      (t u : Table) (v : L.Version) (db : L.Db) → L.held u v (L.version t db).0 ≡ L.held u v db
  -- The current version holds the current rows.
  pub current :
      (t : Table) (db : L.Db) (v : L.Version)
      → (L.version t db).1 ≡ some v
      → L.held t v db ≡ some (L.rows t db)
  pub rows-read : (t u : Table) (db : L.Db) → L.rows u (L.read t db).0 ≡ L.rows u db
  pub held-read :
      (t u : Table) (v : L.Version) (db : L.Db) → L.held u v (L.read t db).0 ≡ L.held u v db
  pub read_lem :
      (t : Table) (db : L.Db) (rs : List Row) → (L.read t db).1 ≡ some rs → rs ≡ L.rows t db
