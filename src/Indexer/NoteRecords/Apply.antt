-- ===== src/Indexer/NoteRecords/Apply.antt =====
-- `_apply_note_records` of src/vault_search/core/indexer.py.
use vault_search_mcp.Prelude.{
  ℕ, Option, none, some, List, [], ◌∷◌, ◌+◌, length, map, nat_eq, string_eq,
}
use vault_search_mcp.Prelude.Text.{Text}
use vault_search_mcp.Indexer.Database.{
  Lance, Table, Row, chunks, links, aliases, delete_note, overwrite, restore, ChunkWithVector,
  LinkRecord, chunk_row, link_row,
}
use vault_search_mcp.Indexer.State.{
  Indexer, Io, ◌>>=◌, ◌>>◌, pure, call, version, ensure_table, push_snapshot, add_unless_empty,
  index_aliases, done,
}

-- `raised n` is an exception, n of the restores behind it having failed and been logged.
pub data Applied : Type 0 where
  applied : ℕ → ℕ → Applied
  raised : ℕ → Applied

unfoldable pub failures : Option (Unit {0}) → ℕ
failures none = 1
failures (some _) = 0

module _ {L : Lance} where
  -- `_rollback_table`
  unfoldable pub rollback_table : Table → Option L.Version → Io L (Unit {0})
  unfolding call
  rollback_table t (some v) = call t (restore v)
  rollback_table t none = call t (overwrite [])

  -- The loop over the snapshots, the last one first: how many of its calls failed.
  unfoldable pub rollback : List (Table × Option L.Version) → Indexer L → Indexer L × ℕ
  unfolding rollback_table failures
  rollback [] s = (s, 0)
  rollback ((t, v) ∷ rest) s =
      let (s', done) = rollback_table t v s in
      let (s'', n) = rollback rest s' in (s'', failures done + n)

  -- A table's version is kept, and the note's rows are replaced.
  unfoldable pub replace_rows : Table → Text → List Row → Io L (Unit {0})
  unfolding call version push_snapshot add_unless_empty
  replace_rows t path rows = do
    v ← version t
    push_snapshot t (some v)
    call t (delete_note path)
    add_unless_empty t rows

  unfoldable pub outcome : Indexer L × Option (ℕ × ℕ) → Indexer L × Applied
  unfolding rollback
  outcome (s, some (l, a)) = (s, applied l a)
  outcome (s, none) = let (s', n) = rollback s.snapshots s in (s', raised n)

  module _ (normalize_link_target : Text → Text) where
    -- The block under `try`.
    unfoldable pub replace_records :
        Table → Text → List ChunkWithVector → List LinkRecord → List Text → Io L (ℕ × ℕ)
    unfolding replace_rows ensure_table index_aliases
    replace_records t path new_chunks new_links new_aliases = do
      replace_rows t path (map chunk_row new_chunks)
      links_table ← ensure_table links
      replace_rows links_table path (map link_row new_links)
      aliases_table ← ensure_table aliases
      replace_rows aliases_table path []
      count ← index_aliases normalize_link_target path new_aliases
      pure (length new_links, count)

    unfoldable pub run_replace :
        Text
        → List ChunkWithVector
        → List LinkRecord
        → List Text
        → Indexer L × Option Table
        → Indexer L × Applied
    unfolding replace_records outcome
    run_replace path new_chunks new_links new_aliases (s, none) = (s, raised 0)
    run_replace path new_chunks new_links new_aliases (s, some t) =
        outcome (replace_records t path new_chunks new_links new_aliases s)

    unfoldable pub apply_note_records :
        Text → List ChunkWithVector → List LinkRecord → List Text → Indexer L → Indexer L × Applied
    unfolding run_replace ensure_table
    apply_note_records path new_chunks new_links new_aliases s =
        run_replace path new_chunks new_links new_aliases
          (ensure_table chunks (record s { snapshots = [] }))
