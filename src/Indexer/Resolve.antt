-- ===== src/Indexer/Resolve.antt =====
-- `_resolve_link_targets` of src/vault_search/core/indexer.py. The set of the indexed paths is taken in
-- the order of the rows; counting and reading a table is one call.
use vault_search_mcp.Prelude.{
  ℕ, true, not, Option, none, some, List, [], ◌∷◌, if◌then◌else◌, nat_eq, string_eq, ◌==◌, length,
  ◌&&◌, take,
}
use vault_search_mcp.Prelude.Text.{Text, text_eq, is_blank}
use vault_search_mcp.Dict.{Dict, lookup, contains, insert}
use vault_search_mcp.Indexer.Database.{
  delete_note, Kind, Lance, Table, Row, LinkRecord, chunk_row, link_row, alias_row, chunks, links,
  aliases, has_key, delete_link, add,
}
use vault_search_mcp.Indexer.State.{Io, ◌>>=◌, ◌>>◌, pure, call, read, ensure_table, done}

-- `path_map[key] = path` if the key is new.
unfoldable pub add_target : Text → Text → Dict Text Text → Dict Text Text
add_target key path known = if contains key known then known else insert key path known

-- "external"
abbrev external : Text
external = 101 ∷ 120 ∷ 116 ∷ 101 ∷ 114 ∷ 110 ∷ 97 ∷ 108 ∷ []

-- The links to resolve; the query's limit is applied to what it finds.
unfoldable pub unresolved : List Row → List LinkRecord
unresolved [] = []
unresolved (chunk_row c ∷ rows) = unresolved rows
unresolved (alias_row a ∷ rows) = unresolved rows
unresolved (link_row l ∷ rows) =
    if not l.is_resolved && not (l.link_type == external)
    then l ∷ unresolved rows
    else unresolved rows

unfoldable pub found_target : Option Text → Option Text
found_target none = none
found_target (some path) = if is_blank path then none else some path

unfoldable pub add_update :
    LinkRecord → Option Text → List (LinkRecord × Text) → List (LinkRecord × Text)
add_update l none rest = rest
add_update l (some path) rest = (l, path) ∷ rest

unfoldable pub updates : Dict Text Text → List LinkRecord → List (LinkRecord × Text)
unfolding found_target add_update
updates targets [] = []
updates targets (l ∷ rest) =
    add_update l (found_target (lookup l.link_target_normalized targets)) (updates targets rest)

-- The first link with the key.
unfoldable pub first_link : Text → Text → Text → List Row → Option LinkRecord
unfolding has_key
first_link path type target [] = none
first_link path type target (chunk_row c ∷ rows) = first_link path type target rows
first_link path type target (alias_row a ∷ rows) = first_link path type target rows
first_link path type target (link_row l ∷ rows) =
    if has_key path type target (link_row l) then some l else first_link path type target rows

-- The stems and the paths of the notes, then the aliases.
unfoldable pub path_targets :
    (normalize stem : Text → Text) → List Row → Dict Text Text → Dict Text Text
unfolding add_target
path_targets normalize stem [] known = known
path_targets normalize stem (chunk_row c ∷ rows) known = path_targets normalize stem rows (
    add_target (normalize c.chunk.note_path) c.chunk.note_path
      (add_target (normalize (stem c.chunk.note_path)) c.chunk.note_path known))
path_targets normalize stem (link_row l ∷ rows) known = path_targets normalize stem rows known
path_targets normalize stem (alias_row a ∷ rows) known = path_targets normalize stem rows known

unfoldable pub alias_targets : List Row → Dict Text Text → Dict Text Text
unfolding add_target
alias_targets [] known = known
alias_targets (alias_row a ∷ rows) known =
    alias_targets rows (add_target a.alias_normalized a.note_path known)
alias_targets (chunk_row c ∷ rows) known = alias_targets rows known
alias_targets (link_row l ∷ rows) known = alias_targets rows known

unfoldable pub alias_targets_if : Option (List Row) → Dict Text Text → Dict Text Text
unfolding alias_targets
alias_targets_if none known = known
alias_targets_if (some rows) known = alias_targets rows known

module _ {L : Lance} where
  -- `try: ... except Exception`
  unfoldable pub attempt {ℓ} : {A : Type ℓ} → Io L A → Io L (Option A)
  attempt m s = let (s', a) = m s in (s', some a)

  unfoldable pub replace_link : Table → Text → Option LinkRecord → Io L (Unit {0})
  unfolding call
  replace_link t to none = pure tt
  replace_link t to (some l) = do
    call t (delete_link l.from_note_path l.link_type l.link_target)
    call t (add (link_row (record l { to_note_path = to; is_resolved = true }) ∷ []))

  unfoldable pub update_link : Table → LinkRecord → Text → Io L (Unit {0})
  unfolding read replace_link first_link
  update_link t l to = do
    rows ← read t
    replace_link t to (first_link l.from_note_path l.link_type l.link_target rows)

  unfoldable pub update_links : Table → List (LinkRecord × Text) → Io L (Unit {0})
  unfolding attempt update_link
  update_links t [] = pure tt
  update_links t ((l, to) ∷ rest) = do done ← attempt (update_link t l to); update_links t rest

  unfoldable pub resolve_found : Table → Dict Text Text → Option (List Row) → Io L ℕ
  unfolding update_links updates unresolved
  resolve_found t targets none = pure 0
  resolve_found t targets (some rows) = do
    let changes = updates targets (take 100000 (unresolved rows))
    update_links t changes
    pure (length changes)

  unfoldable pub resolve_with :
      (normalize stem : Text → Text) → Table → Table → Option (List Row) → Io L ℕ
  unfolding attempt read resolve_found path_targets alias_targets_if
  resolve_with normalize stem links_table aliases_table none = pure 0
  resolve_with normalize stem links_table aliases_table (some []) = pure 0
  resolve_with normalize stem links_table aliases_table (some (row ∷ rows)) = do
    named ← attempt (read aliases_table)
    let targets = alias_targets_if named (path_targets normalize stem (row ∷ rows) [])
    found ← attempt (read links_table)
    resolve_found links_table targets found

  unfoldable pub resolve_link_targets : (normalize stem : Text → Text) → Io L ℕ
  unfolding ensure_table attempt read resolve_with
  resolve_link_targets normalize stem = do
    links_table ← ensure_table links
    aliases_table ← ensure_table aliases
    chunks_table ← ensure_table chunks
    rows ← attempt (read chunks_table)
    resolve_with normalize stem links_table aliases_table rows

  -- `_delete_note_links` and `_delete_note_aliases`, which log every failure; nothing calls them.
  unfoldable pub delete_rows_of : Kind → Text → Io L (Unit {0})
  unfolding ensure_table call
  delete_rows_of k path = do t ← ensure_table k; call t (delete_note path)

  unfoldable pub delete_note_links : Text → Io L (Option (Unit {0}))
  unfolding attempt delete_rows_of
  delete_note_links path = attempt (delete_rows_of links path)

  unfoldable pub delete_note_aliases : Text → Io L (Option (Unit {0}))
  unfolding attempt delete_rows_of
  delete_note_aliases path = attempt (delete_rows_of aliases path)
