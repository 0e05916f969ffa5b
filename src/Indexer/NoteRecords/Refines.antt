-- ===== src/Indexer/NoteRecords/Refines.antt =====
-- `_apply_note_records` against the replacement of a note's records in all tables at once.
use vault_search_mcp.Prelude.{
  false, Option, none, some, List, [], ◌≡◌, refl, nat_eq, string_eq, map, length,
}
use vault_search_mcp.Prelude.Text.{Text, text_eq}
use vault_search_mcp.Indexer.Database.{
  Lance, IsLawful, Table, Kind, Row, chunks, links, aliases, ChunkWithVector, LinkRecord, chunk_row,
  link_row,
}
use vault_search_mcp.Indexer.State.{Indexer, table_of, handle, ensure_table, alias_records}
use vault_search_mcp.Indexer.NoteRecords.Apply.{replace_records, apply_note_records, run_replace}
use vault_search_mcp.Indexer.Rules.{Ensures, Owned}
use vault_search_mcp.Indexer.NoteRecords.Atomic.{snapped}
use vault_search_mcp.Indexer.NoteRecords.Steps.{Good, At}
use vault_search_mcp.Indexer.NoteRecords.Applied.{ensure_table-At}
use vault_search_mcp.Indexer.NoteRecords.Replacing.{
  outcome-IsAtomic, replace_records-At, IsAtomic, ensure_open_snapshots, replaced, target,
  target-Apart,
}

module _ {L : Lance} (lawful : IsLawful L) (normalize : Text → Text) (s : Indexer L)
    (path : Text) where
  abbrev contents : Table → List Row
  contents u = L.rows u s.db

  start-At : At lawful contents path (target s) contents (λ u. false) (record s { snapshots = [] })
  unfolding snapped handle target
  start-At = record {
    good = record {
      undo = record { untouched = λ u f. refl; hold = tt };
      others = λ u. refl;
      points = points;
    };
    exact = λ u. refl;
    snapshots = λ u. refl;
  }
    where
      points :
          (k : Kind) → table_of (handle k (record s { snapshots = [] })) k ≡ table_of (handle k s) k
      points chunks = refl
      points links = refl
      points aliases = refl

  run_replace-IsAtomic :
      (new_chunks : List ChunkWithVector) (new_links : List LinkRecord) (names : List Text)
      (r : Indexer L × Option Table)
      → Owned path (map chunk_row new_chunks)
      → Owned path (map link_row new_links)
      → r.0.snapshots ≡ []
      → Ensures
          (Good lawful contents path (target s))
          (λ t s'.
            At lawful contents path (target s) contents (λ u. false) s' × (t ≡ target s chunks))
          r
      → IsAtomic lawful normalize contents path
          (target s)
          (replaced
            (target s)
            path
            (map chunk_row new_chunks)
            (map link_row new_links)
            (alias_records normalize path names)
            contents)
          (length new_links, length (alias_records normalize path names))
          (run_replace normalize path new_chunks new_links names r)
  unfolding run_replace snapped
  run_replace-IsAtomic new_chunks new_links names (s', none) oc ol k e =
      (λ z u. e.undo.untouched u (rw k refl), e.others)
  run_replace-IsAtomic new_chunks new_links names (s', some t) oc ol k e = rw e.1 (
      outcome-IsAtomic lawful normalize contents path (target s) _ _
        (replace_records normalize (target s chunks) path new_chunks new_links names s')
        (replace_records-At lawful normalize contents path (target s) (target-Apart s) new_chunks
          new_links names (λ u. false) s' oc ol (λ k. refl) e.0))

  -- Over a database that obeys the laws, and with new rows that are all the note's,
  -- `_apply_note_records` replaces the note's chunks, links and aliases in the three tables and
  -- returns how many links and aliases there are, or raises; then the tables are as they were if no
  -- restore failed, and the other notes' records are there even so.
  pub apply_note_records-IsAtomic :
      (new_chunks : List ChunkWithVector) (new_links : List LinkRecord) (names : List Text)
      → Owned path (map chunk_row new_chunks)
      → Owned path (map link_row new_links)
      → IsAtomic lawful normalize contents path
          (target s)
          (replaced
            (target s)
            path
            (map chunk_row new_chunks)
            (map link_row new_links)
            (alias_records normalize path names)
            contents)
          (length new_links, length (alias_records normalize path names))
          (apply_note_records normalize path new_chunks new_links names s)
  unfolding apply_note_records ensure_table
  apply_note_records-IsAtomic new_chunks new_links names oc ol =
      run_replace-IsAtomic new_chunks new_links names
        (ensure_table chunks (record s { snapshots = [] })) oc ol
        (ensure_open_snapshots chunks (handle chunks (record s { snapshots = [] }))
          (record s { snapshots = [] }))
        (ensure_table-At lawful contents path (target s) chunks contents (λ u. false)
          (record s { snapshots = [] }) start-At)
