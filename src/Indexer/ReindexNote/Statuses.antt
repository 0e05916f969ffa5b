-- ===== src/Indexer/ReindexNote/Statuses.antt =====
-- What each status of `reindex_note` promises, and the ends of the method.
use vault_search_mcp.Prelude.{
  ℕ, Bool, true, false, Option, none, some, List, [], ◌∷◌, ◌≡◌, if◌then◌else◌, refl, arith, suc,
  zero, nat_eq, string_eq, ◌==◌, length, take, map, ◌∙◌, ◌+◌, Bool-cases, inl, inr, ltb,
}
use vault_search_mcp.Prelude.Text.{Text, text_eq}
use vault_search_mcp.Collect.{ChunkRecord}
use vault_search_mcp.Indexer.Database.{
  Lance, IsLawful, Table, Row, ChunkWithVector, LinkRecord, chunks, optimize, chunk_row, link_row,
  effect, note_of,
}
use vault_search_mcp.Indexer.State.{Indexer, table_of, handle, alias_records}
use vault_search_mcp.Indexer.NoteRecords.Apply.{Applied, applied, raised, apply_note_records}
use vault_search_mcp.Indexer.Rules.{Exactly, Owned, same_table_iff}
use vault_search_mcp.Indexer.NoteRecords.Atomic.{Others}
use vault_search_mcp.Indexer.NoteRecords.Refines.{apply_note_records-IsAtomic}
use vault_search_mcp.Indexer.NoteRecords.Replacing.{IsAtomic, replaced, target}
use vault_search_mcp.Indexer.Breaker.{Attempts}
use vault_search_mcp.Indexer.ReindexNote.Run.{
  ReindexStatus, ReindexResult, Answers, updated, empty, deleted, parse_failed, error_add_failed,
  rejected_path_traversal, rejected_extension, circuit_breaker_open, plain, embed,
  record_incremental_operation, compact_table, compacted, schedule_if, schedule_fts_rebuild,
  end_delete, end_empty, end_update, delete_records, auto_compact_threshold, checked, with_vectors,
}

-- Every chunk and link that the parser returns is the note's.
abbrev pub ChunksOf : Text → List ChunkRecord → Type 0
ChunksOf path [] = Unit {0}
ChunksOf path (c ∷ cs) = (c.note_path ≡ path) × ChunksOf path cs

module _ {L : Lance} (lawful : IsLawful L) (normalize : Text → Text) (max_chunks : ℕ) (a : Answers)
    (path : Text) where
  abbrev rows_in : Indexer L → Table → List Row
  rows_in s u = L.rows u s.db

  -- The index with the note's rows replaced.
  abbrev pub indexed :
      List ChunkWithVector → List LinkRecord → List Text → Indexer L → Table → List Row
  indexed cs ls names s =
      replaced (target s) path (map chunk_row cs) (map link_row ls)
        (alias_records normalize path names) (rows_in s)

  -- What each status promises of the tables.
  abbrev pub Promise : ReindexStatus → Indexer L → ReindexResult → ℕ → Indexer L → Type 0
  Promise updated s result logged after =
      (cs : List ChunkWithVector) × (embed a (take max_chunks a.parsed.chunks) ≡ some cs)
      × Exactly lawful (indexed cs a.parsed.links a.parsed.aliases s) after
      × (result.chunks_indexed ≡ length cs)
  Promise empty s result logged after = Exactly lawful (indexed [] [] [] s) after
  Promise deleted s result logged after = Exactly lawful (indexed [] [] [] s) after
  Promise error_add_failed s result logged after =
      (logged ≡ 0 → Exactly lawful (rows_in s) after) × Others lawful (rows_in s) path after
  Promise parse_failed s result logged after = Exactly lawful (rows_in s) after
  Promise rejected_path_traversal s result logged after = Exactly lawful (rows_in s) after
  Promise rejected_extension s result logged after = Exactly lawful (rows_in s) after
  Promise circuit_breaker_open s result logged after = Exactly lawful (rows_in s) after

  abbrev pub IsTruthful : Indexer L → Indexer L × ReindexResult × ℕ → Type 0
  IsTruthful s (after, result, logged) = Promise result.status s result logged after

  -- The count of attempts is no part of the promise.
  pub Promise-counted :
      (status : ReindexStatus) (s : Indexer L) (attempts : Attempts) (result : ReindexResult)
      (logged : ℕ) (after : Indexer L)
      → Promise status (record s { reindex_attempts = attempts }) result logged after
      → Promise status s result logged after
  unfolding replaced target handle
  Promise-counted updated s attempts result logged after p = p
  Promise-counted empty s attempts result logged after p = p
  Promise-counted deleted s attempts result logged after p = p
  Promise-counted error_add_failed s attempts result logged after p = p
  Promise-counted parse_failed s attempts result logged after p = p
  Promise-counted rejected_path_traversal s attempts result logged after p = p
  Promise-counted rejected_extension s attempts result logged after p = p
  Promise-counted circuit_breaker_open s attempts result logged after p = p

  pub if-IsTruthful :
      (s : Indexer L) (test : Bool) (x y : Indexer L × ReindexResult × ℕ)
      → IsTruthful s x
      → IsTruthful s y
      → IsTruthful s (if test then x else y)
  if-IsTruthful s true x y f g = f
  if-IsTruthful s false x y f g = g

  compact_rows : (t u : Table) (s : Indexer L) → L.rows u (compact_table t s).0.db ≡ L.rows u s.db
  unfolding compact_table effect
  compact_rows t u s = ground (arith, lawful.rows-call t u optimize s.db, same_table_iff t u)

  compacted_db : (r : Indexer L × Bool) → (compacted r).0.db ≡ r.0.db
  unfolding compacted
  compacted_db (s, true) = refl
  compacted_db (s, false) = refl

  -- Compacting changes no row.
  incremental_rows :
      (t u : Table) (s : Indexer L)
      → L.rows u (record_incremental_operation t s).0.db ≡ L.rows u s.db
  unfolding record_incremental_operation
  incremental_rows t u s =
      elim (Bool-cases (ltb (s.operations_since_compact + 1) auto_compact_threshold)) [
        | inl few ↦ rw few refl
        | inr many ↦
            rw (many, compacted_db)
              (compact_rows t u
                (record s { operations_since_compact = s.operations_since_compact + 1 }))
      ]

  -- Two states whose tables hold the same.
  abbrev SameRows : Indexer L → Indexer L → Type 0
  SameRows s after = (u : Table) → L.rows u after.db ≡ L.rows u s.db

  scheduled_rows :
      (compacted starts : Bool) (s : Indexer L) → SameRows s (schedule_if compacted starts s)
  unfolding schedule_if schedule_fts_rebuild
  scheduled_rows false starts s u = refl
  scheduled_rows true starts s u = elim (Bool-cases s.fts_rebuild_in_progress) [
    | inl busy ↦ rw busy refl
    | inr free ↦ rw free refl
  ]

  -- The end of an attempt whose records were to be the given ones.
  abbrev Ends : (Table → List Row) → ℕ × ℕ → Indexer L → Indexer L × Applied → Type 0
  Ends want counts s r = IsAtomic lawful normalize (rows_in s) path (target s) want counts r

  end_delete-IsTruthful :
      (counts : ℕ × ℕ) (s : Indexer L) (r : Indexer L × Applied)
      → Ends (indexed [] [] [] s) counts s r
      → IsTruthful s (end_delete normalize max_chunks a r)
  unfolding end_delete plain
  end_delete-IsTruthful counts s (after, raised n) e = e
  end_delete-IsTruthful counts s (after, applied l k) e =
      λ u. incremental_rows (table_of after.table chunks) u after ∙ e.0 u

  pub end_empty-IsTruthful :
      (counts : ℕ × ℕ) (s : Indexer L) (r : Indexer L × Applied)
      → Ends (indexed [] [] [] s) counts s r
      → IsTruthful s (end_empty normalize max_chunks a r)
  unfolding end_empty plain
  end_empty-IsTruthful counts s (after, raised n) e = e
  end_empty-IsTruthful counts s (after, applied l k) e = λ u.
      scheduled_rows _ a.thread_starts
        (record_incremental_operation (table_of after.table chunks) after).0 u
      ∙ incremental_rows (table_of after.table chunks) u after
      ∙ e.0 u

  pub end_update-IsTruthful :
      (cs : List ChunkWithVector) (id_added : Bool) (counts : ℕ × ℕ) (s : Indexer L)
      (r : Indexer L × Applied)
      → embed a (take max_chunks a.parsed.chunks) ≡ some cs
      → Ends (indexed cs a.parsed.links a.parsed.aliases s) counts s r
      → IsTruthful s (end_update normalize max_chunks a (length cs) id_added r)
  unfolding end_update plain
  end_update-IsTruthful cs id_added counts s (after, raised n) m e = e
  end_update-IsTruthful cs id_added counts s (after, applied l k) m e = (
    cs,
    m,
    λ u.
        scheduled_rows _ a.thread_starts
          (record_incremental_operation (table_of after.table chunks) after).0 u
        ∙ incremental_rows (table_of after.table chunks) u after
        ∙ e.0 u,
    refl,
  )

  pub delete-IsTruthful :
      (s : Indexer L) → IsTruthful s (delete_records normalize max_chunks a path s)
  unfolding delete_records
  delete-IsTruthful s =
      end_delete-IsTruthful _ s (apply_note_records normalize path [] [] [] s)
        (apply_note_records-IsAtomic lawful normalize s path [] [] [] tt tt)

  with_vectors-Owned :
      (cs : List ChunkRecord) (vectors : List (List ℕ))
      → ChunksOf path cs
      → Owned path (map chunk_row (with_vectors cs vectors))
  unfolding with_vectors note_of
  with_vectors-Owned [] vectors o = tt
  with_vectors-Owned (c ∷ cs) [] o = tt
  with_vectors-Owned (c ∷ cs) (v ∷ vectors) o = (o.0, with_vectors-Owned cs vectors o.1)

  pub take-ChunksOf : (n : ℕ) (cs : List ChunkRecord) → ChunksOf path cs → ChunksOf path (take n cs)
  take-ChunksOf zero cs o = tt
  take-ChunksOf (suc n) [] o = tt
  take-ChunksOf (suc n) (c ∷ cs) o = (o.0, take-ChunksOf n cs o.1)

  pub checked-Owned :
      (cs : List ChunkRecord) (vectors : Option (List (List ℕ))) (new : List ChunkWithVector)
      → ChunksOf path cs
      → checked cs vectors ≡ some new
      → Owned path (map chunk_row new)
  unfolding checked
  checked-Owned cs none new o e = cc
  checked-Owned cs (some vectors) new o e = elim (Bool-cases (length vectors == length cs)) [
    | inl same ↦
        let f : with_vectors cs vectors ≡ new = ground arith in
        rw (← f) (with_vectors-Owned cs vectors o)
    | inr other ↦ let f : false ≡ true = ground arith in cc
  ]
