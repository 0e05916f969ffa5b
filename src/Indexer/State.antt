-- ===== src/Indexer/State.antt =====
-- The state of a `VaultIndexer` of src/vault_search/core/indexer.py, its calls of the database and
-- its table handles.
use vault_search_mcp.Prelude.{
  ℕ, Bool, true, false, Option, none, some, List, [], ◌∷◌, if◌then◌else◌, nat_eq, string_eq, length,
}
use vault_search_mcp.Prelude.Text.{Text, text_eq, strip, is_blank}
use vault_search_mcp.Dict.{Dict}
use vault_search_mcp.Indexer.Database.{
  Lance, Table, Kind, Row, Call, canonical, staging, chunks, links, aliases, open_table, create,
  add, alias_row,
}

-- What `_table`, `_links_table` or `_aliases_table` refers to.
pub data Handle : Type 0 where
  closed on_canonical on_staging : Handle

-- The fields; `reindex_attempts` has the count and the first time. `snapshots` is the list that
-- `_apply_note_records` or `full_reindex` keeps for its rollback, `None` for a new table.
pub record Indexer (L : Lance) : Type 0 where
  pub db : L.Db
  pub table : Handle
  pub links_table : Handle
  pub aliases_table : Handle
  pub operations_since_compact : ℕ
  pub reindex_attempts : Dict Text (ℕ × ℕ)
  pub fts_rebuild_in_progress : Bool
  pub snapshots : List (Table × Option L.Version)

unfoldable pub table_of : Handle → Kind → Table
table_of closed k = canonical k
table_of on_canonical k = canonical k
table_of on_staging k = staging k

-- An exception is `none`.
abbrev pub Io {ℓ} : Lance → Type ℓ → Type ℓ
Io L A = Indexer L → Indexer L × Option A

unfoldable pub done : Bool → Option (Unit {0})
done true = some tt
done false = none

module _ {L : Lance} where
  abbrev pub continue {ℓ κ} :
      {A : Type ℓ} {B : Type κ} → Indexer L × Option A → (A → Io L B) → Indexer L × Option B
  continue (s, none) f = (s, none)
  continue (s, some a) f = f a s

  infixl 5 ◌>>=◌ ◌>>◌
  abbrev pub ◌>>=◌ {ℓ κ} : {A : Type ℓ} {B : Type κ} → Io L A → (A → Io L B) → Io L B
  ◌>>=◌ m f s = continue (m s) f

  abbrev pub ◌>>◌ {κ} : {B : Type κ} → Io L (Unit {0}) → Io L B → Io L B
  m >> k = m >>= λ _. k

  abbrev pub pure {ℓ} : {A : Type ℓ} → A → Io L A
  pure a s = (s, some a)

  abbrev pub fail {ℓ} : {A : Type ℓ} → Io L A
  fail s = (s, none)

  unfoldable pub call : Table → Call L.Version → Io L (Unit {0})
  unfolding done
  call t c s = let (db, returned) = L.call t c s.db in (record s { db = db }, done returned)

  unfoldable pub list_tables : Io L (Table → Bool)
  list_tables s = let (db, names) = L.list_tables s.db in (record s { db = db }, names)

  unfoldable pub version : Table → Io L L.Version
  version t s = let (db, v) = L.version t s.db in (record s { db = db }, v)

  unfoldable pub read : Table → Io L (List Row)
  read t s = let (db, rows) = L.read t s.db in (record s { db = db }, rows)

  unfoldable pub handle : Kind → Indexer L → Handle
  handle chunks s = s.table
  handle links s = s.links_table
  handle aliases s = s.aliases_table

  unfoldable pub set_handle : Kind → Handle → Indexer L → Indexer L
  set_handle chunks h s = record s { table = h }
  set_handle links h s = record s { links_table = h }
  set_handle aliases h s = record s { aliases_table = h }

  -- `open_table` if the name is listed, else `create_table` with the schema.
  unfoldable pub open_or_create : Kind → Bool → Io L (Unit {0})
  unfolding call
  open_or_create k true = call (canonical k) open_table
  open_or_create k false = call (canonical k) (create [])

  unfoldable pub opened : Kind → Io L Table
  unfolding set_handle
  opened k s = (set_handle k on_canonical s, some (canonical k))

  -- `_ensure_table`, `_ensure_links_table` and `_ensure_aliases_table`; no caller gives rows.
  unfoldable pub ensure_open : Kind → Handle → Io L Table
  unfolding list_tables open_or_create opened
  ensure_open k closed = do names ← list_tables; open_or_create k (names (canonical k)); opened k
  ensure_open k on_canonical = pure (canonical k)
  ensure_open k on_staging = pure (staging k)

  unfoldable pub ensure_table : Kind → Io L Table
  unfolding ensure_open handle
  ensure_table k s = ensure_open k (handle k s) s

  unfoldable pub push_snapshot : Table → Option L.Version → Io L (Unit {0})
  push_snapshot t v s = (record s { snapshots = (t, v) ∷ s.snapshots }, some tt)

  unfoldable pub add_unless_empty : Table → List Row → Io L (Unit {0})
  unfolding call
  add_unless_empty t [] = pure tt
  add_unless_empty t (row ∷ rows) = call t (add (row ∷ rows))

module _ (normalize_link_target : Text → Text) where
  -- The loop of `_index_aliases`.
  unfoldable pub alias_records : Text → List Text → List Row
  unfolding strip is_blank
  alias_records path [] = []
  alias_records path (alias ∷ rest) =
      if is_blank (strip alias)
      then alias_records path rest
      else alias_row (record {
        note_path = path;
        alias = strip alias;
        alias_normalized = normalize_link_target alias;
      })
        ∷ alias_records path rest

  unfoldable pub index_aliases : {L : Lance} → Text → List Text → Io L ℕ
  unfolding ensure_table alias_records add_unless_empty
  index_aliases path [] = pure 0
  index_aliases path (alias ∷ rest) = do
    t ← ensure_table aliases
    add_unless_empty t (alias_records path (alias ∷ rest))
    pure (length (alias_records path (alias ∷ rest)))
