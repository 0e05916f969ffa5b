-- ===== src/Indexer/FullReindex/Phases.antt =====
-- The phases of `full_reindex` from the loop over the notes to the commit.
use mathlib.Core.List.{append-nil}
use vault_search_mcp.Prelude.{
  ℕ, Bool, true, false, Option, none, some, List, [], ◌∷◌, ◌++◌, ◌≡◌, if◌then◌else◌, refl, arith,
  Bool-cases, inl, inr, ◌∙◌, ap, sym, nat_eq, string_eq, length, leb,
}
use vault_search_mcp.Prelude.Text.{Text}
use vault_search_mcp.Collect.{ChunkRecord}
use vault_search_mcp.Indexer.Database.{
  Lance, IsLawful, Table, Row, canonical, staging, chunks, links, aliases, same_table,
}
use vault_search_mcp.Indexer.State.{Indexer}
use vault_search_mcp.Indexer.Rules.{Ensures}
use vault_search_mcp.Indexer.FullReindex.Staging.{
  Completed, Progress, no_progress, Stop, finished, interrupted, raised, collect_notes, store_last,
  store_if, after_store, store_staging_batch, index_graph,
}
use vault_search_mcp.Indexer.Vector.{VectorSettings}
use vault_search_mcp.Indexer.FullReindex.Run.{
  failed, FullResult, failure_or_again, end_graph, end_last, end_loop, run_loop,
}
use vault_search_mcp.Indexer.FullReindex.Guarded.{OnStaging, Guarded}
use vault_search_mcp.Indexer.FullReindex.Graph.{index_graph-Stays}
use vault_search_mcp.Indexer.FullReindex.Loop.{Collected, CollectedIf, collect_notes-Collected}
use vault_search_mcp.Indexer.FullReindex.Batches.{
  chunks_in, parsed_chunks, errors_in, but_chunks, StoredIf, store_if-Stored,
}
use vault_search_mcp.Indexer.FullReindex.Promised.{
  Preserved, IsAllOrNothing, Ready, failed-IsAllOrNothing, again-IsAllOrNothing,
  interrupted-IsAllOrNothing, end_graph-IsAllOrNothing,
}

-- The tables that the graph's part leaves alone.
unfoldable but_graph : Table → Bool
but_graph (canonical k) = true
but_graph (staging chunks) = true
but_graph (staging links) = false
but_graph (staging aliases) = false

module _ {L : Lance} (lawful : IsLawful L) (base : Table → List Row) (notes : List Completed) where
  abbrev pub Kept : Indexer L → Type 0
  Kept = Preserved lawful base notes

  abbrev Promised : Indexer L × FullResult × ℕ → Type 0
  Promised = IsAllOrNothing lawful base notes

  module _ (v : VectorSettings) (embed_corpus : List Text → Option (List (List ℕ)))
      (normalize stem : Text → Text) where
    -- What is known behind the last batch.
    abbrev Last : Indexer L × Progress × Stop → Type 0
    Last (s, p, finished) =
        OnStaging s
        × Kept s
        × (chunks_in (L.rows (staging chunks) s.db) ≡ parsed_chunks notes)
        × (p.total_chunks ≡ length (parsed_chunks notes))
        × (p.parse_errors ≡ errors_in notes)
    Last (s, p, interrupted) = Kept s
    Last (s, p, raised) = Kept s

    graph-Ready :
        (p : Progress) (s : Indexer L)
        → Last (s, p, finished)
        → p.parse_errors ≡ 0
        → Ensures Kept (λ _. Ready lawful base notes p) (index_graph normalize stem p s)
    unfolding but_graph
    graph-Ready p s (on, kept, collected, counted, errors) none_failed =
        ended (index_graph normalize stem p s) (
          index_graph-Stays lawful but_graph (λ u. L.rows u s.db) refl refl normalize stem p s
            (record { handles = on; same = λ u h. refl }))
      where
        Calm : Indexer L → Type 0
        Calm = Guarded lawful but_graph (λ u. L.rows u s.db)

        ended :
            (r : Indexer L × Option (ℕ × ℕ))
            → Ensures Calm (λ _. Calm) r
            → Ensures Kept (λ _. Ready lawful base notes p) r
        ended (s', none) e = λ k. e.same (canonical k) refl ∙ kept k
        ended (s', some totals) e = record {
          preserved = λ k. e.same (canonical k) refl ∙ kept k;
          collected = ap chunks_in (e.same (staging chunks) refl) ∙ collected;
          counted = counted;
          no_errors = sym errors ∙ none_failed;
        }

    if-IsAllOrNothing :
        (test : Bool) (x y : Indexer L × FullResult × ℕ)
        → (test ≡ true → Promised x)
        → (test ≡ false → Promised y)
        → Promised (if test then x else y)
    if-IsAllOrNothing true x y f g = f refl
    if-IsAllOrNothing false x y f g = g refl

    end_last-IsAllOrNothing :
        (r : Indexer L × Progress × Stop)
        → Last r
        → Promised (end_last v embed_corpus normalize stem r)
    unfolding end_last
    end_last-IsAllOrNothing (s, p, interrupted) e =
        failed-IsAllOrNothing lawful base notes p 0 s (λ z. e)
    end_last-IsAllOrNothing (s, p, raised) e =
        failed-IsAllOrNothing lawful base notes p 0 s (λ z. e)
    end_last-IsAllOrNothing (s, p, finished) e =
        if-IsAllOrNothing (leb 1 p.parse_errors) (failure_or_again failed p 0 s)
          (end_graph v p (index_graph normalize stem p s))
          (λ _. again-IsAllOrNothing lawful base notes p 0 s (λ z. e.1))
          (λ few.
            end_graph-IsAllOrNothing lawful base notes v p (index_graph normalize stem p s)
              (graph-Ready p s e (ground arith)))

    -- The loop starts on empty staging tables.
    module _ (s1 : Indexer L) (empty : L.rows (staging chunks) s1.db ≡ []) (fresh : Kept s1) where
      abbrev Safe : Indexer L → Type 0
      Safe = Guarded lawful but_chunks (λ u. L.rows u s1.db)

      Safe-Preserved : (s : Indexer L) → Safe s → Kept s
      unfolding but_chunks same_table
      Safe-Preserved s g k = g.same (canonical k) refl ∙ fresh k

      -- Nothing is left of the batch.
      abbrev IsEmptied : Indexer L × Progress × Stop → Type 0
      IsEmptied (s, p, finished) = p.batch ≡ []
      IsEmptied (s, p, interrupted) = Unit {0}
      IsEmptied (s, p, raised) = Unit {0}

      after_store-IsEmptied :
          (p : Progress) (r : Indexer L × Option ℕ) → IsEmptied (after_store embed_corpus p r)
      unfolding after_store
      after_store-IsEmptied p (s, none) = tt
      after_store-IsEmptied p (s, some n) = refl

      short : (batch : List ChunkRecord) → leb 1 (length batch) ≡ false → batch ≡ []
      short [] h = refl
      short (c ∷ cs) h = absurd (ground arith)

      store_last-IsEmptied :
          (p : Progress) (s : Indexer L) → IsEmptied (store_last embed_corpus p s)
      unfolding store_last store_if
      store_last-IsEmptied p s = elim (Bool-cases (leb 1 (length p.batch))) [
        | inl some_left ↦
            rw some_left (after_store-IsEmptied p (store_staging_batch embed_corpus p.batch s))
        | inr none_left ↦ rw none_left (short p.batch none_left)
      ]

      batch-Last :
          (p : Progress) (s : Indexer L) (r : Indexer L × Progress × Stop)
          → Collected lawful (λ u. L.rows u s1.db) embed_corpus notes no_progress s1 p s
          → StoredIf lawful (λ u. L.rows u s1.db) embed_corpus p s r
          → IsEmptied r
          → Last r
      unfolding chunks_in parsed_chunks
      batch-Last p s (s', p', interrupted) c k e = Safe-Preserved s' k
      batch-Last p s (s', p', raised) c k e = Safe-Preserved s' k
      batch-Last p s (s', p', finished) c k e = (
        k.0.handles,
        Safe-Preserved s' k.0,
        sym (append-nil (chunks_in (L.rows (staging chunks) s'.db)))
            ∙ ap (λ (b : List ChunkRecord). chunks_in (L.rows (staging chunks) s'.db) ++ b) (sym e)
            ∙ k.1.together
            ∙ c.together
            ∙ rw empty refl,
        omega (arith, k.1.counted, c.counted, ap (length {A = ChunkRecord}) e),
        omega (arith, k.1.errors, c.errors),
      )

      end_loop-IsAllOrNothing :
          (r : Indexer L × Progress × Stop)
          → CollectedIf lawful (λ u. L.rows u s1.db) embed_corpus notes no_progress s1 r
          → Promised (end_loop v embed_corpus normalize stem r)
      unfolding end_loop store_last
      end_loop-IsAllOrNothing (s, p, interrupted) e =
          interrupted-IsAllOrNothing lawful base notes p 0 s (λ z. Safe-Preserved s e)
      end_loop-IsAllOrNothing (s, p, raised) e =
          failed-IsAllOrNothing lawful base notes p 0 s (λ z. Safe-Preserved s e)
      end_loop-IsAllOrNothing (s, p, finished) e =
          end_last-IsAllOrNothing (store_last embed_corpus p s) (
            batch-Last p s (store_last embed_corpus p s) e.1
              (store_if-Stored lawful (λ u. L.rows u s1.db) embed_corpus 1 true p s e.0)
              (store_last-IsEmptied p s))

    pub run_loop-IsAllOrNothing :
        (batch_size : ℕ) (r : Indexer L × Option (Unit {0}))
        → Ensures Kept (λ _ s1. OnStaging s1 × Kept s1 × (L.rows (staging chunks) s1.db ≡ [])) r
        → Promised (run_loop v embed_corpus normalize stem batch_size notes r)
    unfolding run_loop
    run_loop-IsAllOrNothing batch_size (s, none) e =
        failed-IsAllOrNothing lawful base notes no_progress 0 s (λ z. e)
    run_loop-IsAllOrNothing batch_size (s, some a) (on, kept, empty) =
        end_loop-IsAllOrNothing s empty kept
          (collect_notes embed_corpus batch_size notes no_progress s)
          (collect_notes-Collected lawful (λ u. L.rows u s.db) embed_corpus batch_size notes
            no_progress s (record { handles = on; same = λ u h. refl }))
