-- ===== src/Indexer/FullReindex/Completes.antt =====
-- `full_reindex` where nothing fails.
use vault_search_mcp.Prelude.{
  ℕ, Bool, true, false, Option, none, some, is_some, List, [], ◌∷◌, ◌≡◌, if◌then◌else◌, refl, arith,
  Bool-cases, inl, inr, ap, length, suc, leb, ◌&&◌, nat_eq, string_eq,
}
use vault_search_mcp.Prelude.Text.{Text}
use vault_search_mcp.Collect.{ChunkRecord}
use vault_search_mcp.Indexer.Database.{Lance, Row, staging, chunks}
use vault_search_mcp.Indexer.State.{Indexer, continue, pure, call}
use vault_search_mcp.Indexer.ReindexNote.Run.{
  texts_of, checked, ParseStatus, success, no_chunks, parse_error, unsupported,
}
use vault_search_mcp.Indexer.FullReindex.Staging.{
  Completed, Progress, no_progress, Stop, finished, interrupted, raised, note_result, extend,
  is_success, to_rows, as_rows, reset_staging_tables, use_staging, add_batch, store_staging_batch,
  after_store, store_if, collect_notes, store_last, index_graph,
}
use vault_search_mcp.Indexer.Vector.{VectorSettings}
use vault_search_mcp.Indexer.FullReindex.Run.{
  FullReindexStatus, completed, FullResult, escaped, stats, commit, end_commit, end_graph, end_last,
  end_loop, run_loop, full_reindex, failure_or_again, failed,
}
use vault_search_mcp.Indexer.FullReindex.Batches.{errors_in, one_error}
use vault_search_mcp.Indexer.FullReindex.Live.{
  IsReliable, Returns, continue-IsDone, bind-Returns, call-Returns, reset_staging_tables-Returns,
  commit-Returns, index_graph-Returns,
}

-- The model gives a vector for each text.
abbrev pub Embeds : (List Text → Option (List (List ℕ))) → Type 0
Embeds embed_corpus =
    (texts : List Text)
    → (vectors : List (List ℕ)) × (embed_corpus texts ≡ some vectors)
      × (length vectors ≡ length texts)

-- No shutdown is requested while the notes complete.
abbrev pub Uninterrupted : List Completed → Type 0
Uninterrupted [] = Unit {0}
Uninterrupted (e ∷ rest) = (e.shutdown ≡ false) × Uninterrupted rest

unfoldable pub result_status : FullResult → Option FullReindexStatus
result_status escaped = none
result_status (stats result) = some result.status

otherwise :
    {A : Type 0} (P : A → Type 0) (test : Bool) (x y : A)
    → test ≡ false
    → P y
    → P (if test then x else y)
otherwise P true x y h p = cc
otherwise P false x y h p = p

length-texts_of : (cs : List ChunkRecord) → length (texts_of cs) ≡ length cs
unfolding texts_of
length-texts_of [] = refl
length-texts_of (c ∷ cs) = ap suc (length-texts_of cs)

module _ (embed_corpus : List Text → Option (List (List ℕ))) (embeds : Embeds embed_corpus) where
  to_rows-found : (batch : List ChunkRecord) → is_some (to_rows embed_corpus batch) ≡ true
  unfolding to_rows checked as_rows
  to_rows-found batch =
      let (vectors, found, same) = embeds (texts_of batch) in
      rw found (ground (arith, same, length-texts_of batch))

  module _ {L : Lance} (reliable : IsReliable L) where
    -- The steps so far went well.
    abbrev IsFine : Indexer L × Progress × Stop → Type 0
    IsFine r = (r.2 ≡ finished) × (r.1.parse_errors ≡ 0)

    add_batch-Returns :
        (n : ℕ) (rows : Option (List Row))
        → is_some rows ≡ true
        → Returns reliable (add_batch n rows)
    unfolding add_batch
    add_batch-Returns n none h = cc
    add_batch-Returns n (some rows) h =
        bind-Returns reliable (call (staging chunks) _) (λ _. pure n)
          (call-Returns reliable (staging chunks) _) (λ _ s. refl)

    after_store-IsFine :
        (p : Progress) (r : Indexer L × Option ℕ)
        → p.parse_errors ≡ 0
        → is_some r.1 ≡ true
        → IsFine (after_store embed_corpus p r)
    unfolding after_store
    after_store-IsFine p (s, none) e h = cc
    after_store-IsFine p (s, some n) e h = (refl, e)

    store_if-IsFine :
        (batch_size : ℕ) (parsed : Bool) (p : Progress) (s : Indexer L)
        → p.parse_errors ≡ 0
        → IsFine (store_if embed_corpus batch_size parsed p s)
    unfolding store_if store_staging_batch
    store_if-IsFine batch_size parsed p s e =
        elim (Bool-cases (parsed && leb batch_size (length p.batch))) [
          | inl full ↦ rw full (
              after_store-IsFine p _ e (
                add_batch-Returns (length p.batch) (to_rows embed_corpus p.batch)
                  (to_rows-found p.batch) s))
          | inr more ↦ rw more (refl, e)
        ]

    note_result_errors :
        (e : Completed) (status : ParseStatus) (p : Progress)
        → p.parse_errors ≡ 0
        → one_error status ≡ 0
        → (note_result e status p).parse_errors ≡ 0
    unfolding note_result extend one_error
    note_result_errors e success p h k = h
    note_result_errors e no_chunks p h k = h
    note_result_errors e unsupported p h k = h
    note_result_errors e parse_error p h k = absurd (omega (arith, k))

    next-IsFine :
        (r next : Indexer L × Progress × Stop)
        → IsFine r
        → IsFine next
        → IsFine (elim r.2 [
          | finished ↦ next
          | interrupted ↦ (r.0, r.1, interrupted)
          | raised ↦ (r.0, r.1, raised)
        ])
    next-IsFine (s, p, finished) next h k = k
    next-IsFine (s, p, interrupted) next h k = h
    next-IsFine (s, p, raised) next h k = h

    collect_notes-IsFine :
        (batch_size : ℕ) (notes : List Completed) (p : Progress) (s : Indexer L)
        → Uninterrupted notes
        → errors_in notes ≡ 0
        → p.parse_errors ≡ 0
        → IsFine (collect_notes embed_corpus batch_size notes p s)
    unfolding collect_notes errors_in
    collect_notes-IsFine batch_size [] p s u e h = (refl, h)
    collect_notes-IsFine batch_size (c ∷ rest) p s u e h =
        let q = note_result c c.result.status p in
        let r = store_if embed_corpus batch_size (is_success c.result.status) q s in
        let fine =
          store_if-IsFine batch_size (is_success c.result.status) q s
            (note_result_errors c c.result.status p h (omega arith)) in
        let next = collect_notes embed_corpus batch_size rest r.1 r.0 in
        otherwise IsFine c.shutdown (s, p, interrupted)
          (elim r.2 [
            | finished ↦ next
            | interrupted ↦ (r.0, r.1, interrupted)
            | raised ↦ (r.0, r.1, raised)
          ])
          u.0
          (next-IsFine r next fine
            (collect_notes-IsFine batch_size rest r.1 r.0 u.1 (omega arith) fine.1))

    module _ (v : VectorSettings) (normalize stem : Text → Text) where
      abbrev Completes : Indexer L × FullResult × ℕ → Type 0
      Completes r = result_status r.1 ≡ some completed

      end_graph-Completes :
          (p : Progress) (r : Indexer L × Option (ℕ × ℕ))
          → is_some r.1 ≡ true
          → Completes (end_graph v p r)
      unfolding end_graph end_commit result_status
      end_graph-Completes p (s, none) h = cc
      end_graph-Completes p (s, some totals) h =
          ended (commit (record s { snapshots = [] }))
            (commit-Returns reliable (record s { snapshots = [] }))
        where
          ended :
              (r : Indexer L × Option (Unit {0}))
              → is_some r.1 ≡ true
              → result_status (end_commit v p totals r).1 ≡ some completed
          ended (s', none) h = cc
          ended (s', some a) h = refl

      end_last-Completes :
          (r : Indexer L × Progress × Stop)
          → IsFine r
          → Completes (end_last v embed_corpus normalize stem r)
      unfolding end_last
      end_last-Completes (s, p, interrupted) h = cc
      end_last-Completes (s, p, raised) h = cc
      end_last-Completes (s, p, finished) h =
          otherwise Completes (leb 1 p.parse_errors) (failure_or_again failed p 0 s)
            (end_graph v p (index_graph normalize stem p s)) (rw h.1 refl)
            (end_graph-Completes p (index_graph normalize stem p s)
              (index_graph-Returns reliable normalize stem p s))

      end_loop-Completes :
          (r : Indexer L × Progress × Stop)
          → IsFine r
          → Completes (end_loop v embed_corpus normalize stem r)
      unfolding end_loop store_last
      end_loop-Completes (s, p, interrupted) h = cc
      end_loop-Completes (s, p, raised) h = cc
      end_loop-Completes (s, p, finished) h =
          end_last-Completes (store_last embed_corpus p s) (store_if-IsFine 1 true p s h.1)

      run_loop-Completes :
          (batch_size : ℕ) (notes : List Completed) (r : Indexer L × Option (Unit {0}))
          → Uninterrupted notes
          → errors_in notes ≡ 0
          → is_some r.1 ≡ true
          → Completes (run_loop v embed_corpus normalize stem batch_size notes r)
      unfolding run_loop
      run_loop-Completes batch_size notes (s, none) u e h = cc
      run_loop-Completes batch_size notes (s, some a) u e h =
          end_loop-Completes (collect_notes embed_corpus batch_size notes no_progress s)
            (collect_notes-IsFine batch_size notes no_progress s u e refl)

      -- If no call of the database raises, the model gives a vector for each text, no note fails to parse
      -- and no shutdown is requested meanwhile, `full_reindex` returns with status `completed`.
      pub result_status-full_reindex :
          (batch_size : ℕ) (notes : List Completed) (s : Indexer L)
          → Uninterrupted notes
          → errors_in notes ≡ 0
          → result_status (full_reindex v embed_corpus normalize stem batch_size notes s).1
            ≡ some completed
      unfolding full_reindex use_staging
      result_status-full_reindex batch_size notes s u e =
          run_loop-Completes batch_size notes (continue (reset_staging_tables s) (λ _. use_staging))
            u e
            (continue-IsDone reliable (reset_staging_tables s) (λ _. use_staging)
              (reset_staging_tables-Returns reliable s) (λ _ s'. refl))
