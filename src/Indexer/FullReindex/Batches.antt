-- ===== src/Indexer/FullReindex/Batches.antt =====
-- What storing a batch of chunks leaves in the staging table.
use mathlib.Core.List.{append-nil}
use vault_search_mcp.Prelude.{
  ℕ, Bool, true, false, not, Option, none, some, List, [], ◌∷◌, ◌++◌, ◌≡◌, refl, arith, Bool-cases,
  inl, inr, ◌∙◌, length, ◌+◌, nat_eq, string_eq, map, ap, ◌&&◌, leb, ◌==◌,
}
use vault_search_mcp.Prelude.Text.{Text}
use vault_search_mcp.Collect.{ChunkRecord}
use vault_search_mcp.Indexer.Database.{
  Lance, IsLawful, Table, Row, ChunkWithVector, staging, chunks, same_table, add, chunk_row,
  link_row, alias_row, effect,
}
use vault_search_mcp.Indexer.State.{Indexer, call}
use vault_search_mcp.Indexer.ReindexNote.Run.{
  ParseStatus, success, no_chunks, parse_error, unsupported, checked, with_vectors, texts_of,
}
use vault_search_mcp.Indexer.FullReindex.Staging.{
  Completed, Progress, Stop, finished, interrupted, raised, with_aliases, add_batch, to_rows,
  as_rows, store_staging_batch, after_store, store_if,
}
use vault_search_mcp.Indexer.Rules.{Ensures, Ensures-continue, Ensures-with, rows-call_done}
use vault_search_mcp.Indexer.FullReindex.Guarded.{Guarded, Stays-call}

-- The chunks that the rows hold.
unfoldable pub chunks_in : List Row → List ChunkRecord
chunks_in [] = []
chunks_in (chunk_row c ∷ rows) = c.chunk ∷ chunks_in rows
chunks_in (link_row l ∷ rows) = chunks_in rows
chunks_in (alias_row a ∷ rows) = chunks_in rows

-- What the parsed notes hold, in the order in which they complete.
unfoldable pub chunks_of : ParseStatus → List ChunkRecord → List ChunkRecord
chunks_of success cs = cs
chunks_of no_chunks cs = []
chunks_of parse_error cs = []
chunks_of unsupported cs = []

unfoldable pub parsed_chunks : List Completed → List ChunkRecord
unfolding chunks_of
parsed_chunks [] = []
parsed_chunks (e ∷ rest) = chunks_of e.result.status e.result.chunks ++ parsed_chunks rest

unfoldable pub names_of : Completed → ParseStatus → List (Text × List Text)
unfolding with_aliases
names_of e success = with_aliases e.path e.result.aliases []
names_of e no_chunks = []
names_of e parse_error = []
names_of e unsupported = []

unfoldable pub parsed_names : List Completed → List (Text × List Text)
unfolding names_of
parsed_names [] = []
parsed_names (e ∷ rest) = names_of e e.result.status ++ parsed_names rest

unfoldable pub one_error : ParseStatus → ℕ
one_error parse_error = 1
one_error success = 0
one_error no_chunks = 0
one_error unsupported = 0

unfoldable pub errors_in : List Completed → ℕ
unfolding one_error
errors_in [] = 0
errors_in (e ∷ rest) = one_error e.result.status + errors_in rest

chunks_in-append : (xs ys : List Row) → chunks_in (xs ++ ys) ≡ chunks_in xs ++ chunks_in ys
unfolding chunks_in
chunks_in-append [] ys = refl
chunks_in-append (chunk_row c ∷ xs) ys = ap (◌∷◌ c.chunk) (chunks_in-append xs ys)
chunks_in-append (link_row l ∷ xs) ys = chunks_in-append xs ys
chunks_in-append (alias_row a ∷ xs) ys = chunks_in-append xs ys

chunks_in-with_vectors :
    (cs : List ChunkRecord) (vectors : List (List ℕ))
    → length vectors ≡ length cs
    → chunks_in (map chunk_row (with_vectors cs vectors)) ≡ cs
unfolding chunks_in with_vectors
chunks_in-with_vectors [] vectors h = refl
chunks_in-with_vectors (c ∷ cs) [] h = absurd (omega arith)
chunks_in-with_vectors (c ∷ cs) (v ∷ vectors) h =
    ap (◌∷◌ c) (chunks_in-with_vectors cs vectors (omega arith))

checked-chunks :
    (cs : List ChunkRecord) (vectors : Option (List (List ℕ))) (new : List ChunkWithVector)
    → checked cs vectors ≡ some new
    → chunks_in (map chunk_row new) ≡ cs
unfolding checked
checked-chunks cs none new h = cc
checked-chunks cs (some vectors) new h = elim (Bool-cases (length vectors == length cs)) [
  | inl same ↦
      let f : with_vectors cs vectors ≡ new = ground arith in
      rw (← f) (chunks_in-with_vectors cs vectors (ground arith))
  | inr other ↦ let f : false ≡ true = ground arith in cc
]

as_rows-chunks :
    (batch : List ChunkRecord) (made : Option (List ChunkWithVector)) (rows : List Row)
    → ((new : List ChunkWithVector) → made ≡ some new → chunks_in (map chunk_row new) ≡ batch)
    → as_rows made ≡ some rows
    → chunks_in rows ≡ batch
unfolding as_rows
as_rows-chunks batch none rows k h = cc
as_rows-chunks batch (some new) rows k h =
    let f : map chunk_row new ≡ rows = ground arith in rw (← f) (k new refl)

to_rows-chunks :
    (embed_corpus : List Text → Option (List (List ℕ))) (batch : List ChunkRecord) (rows : List Row)
    → to_rows embed_corpus batch ≡ some rows
    → chunks_in rows ≡ batch
unfolding to_rows
to_rows-chunks embed_corpus batch rows h =
    as_rows-chunks batch (checked batch (embed_corpus (texts_of batch))) rows
      (λ new. checked-chunks batch (embed_corpus (texts_of batch)) new) h

-- The tables but the one into which the chunks go.
unfoldable pub but_chunks : Table → Bool
but_chunks u = not (same_table (staging chunks) u)

module _ {L : Lance} (lawful : IsLawful L) (before : Table → List Row)
    (embed_corpus : List Text → Option (List (List ℕ))) where
  abbrev pub Safe : Indexer L → Type 0
  Safe = Guarded lawful but_chunks before

  abbrev stored : Indexer L → List ChunkRecord
  stored s = chunks_in (L.rows (staging chunks) s.db)

  add_batch-stored :
      (n : ℕ) (rows : Option (List Row)) (batch : List ChunkRecord) (s : Indexer L)
      → ((rs : List Row) → rows ≡ some rs → chunks_in rs ≡ batch)
      → Safe s
      → Ensures Safe
          (λ m s'. Safe s' × (stored s' ≡ stored s ++ batch) × (m ≡ n))
          (add_batch n rows s)
  unfolding add_batch but_chunks same_table effect
  add_batch-stored n none batch s h g = g
  add_batch-stored n (some rows) batch s h g =
      Ensures-continue Safe (λ _ s'. Safe s' × (stored s' ≡ stored s ++ batch))
        (λ m s'. Safe s' × (stored s' ≡ stored s ++ batch) × (m ≡ n))
        (call (staging chunks) (add rows) s) _
        (Ensures-with Safe (λ _. Safe) (λ _ s'. stored s' ≡ stored s ++ batch)
          (call (staging chunks) (add rows) s)
          (Stays-call lawful but_chunks before (staging chunks) (add rows) refl s g)
          (λ a e.
            ap chunks_in (rows-call_done lawful (staging chunks) (add rows) s a e)
            ∙ chunks_in-append (L.rows (staging chunks) s.db) rows
            ∙ ap (λ (cs : List ChunkRecord). stored s ++ cs) (h rows refl)))
        (λ _ s' k. (k.0, k.1, refl))

  store-stored :
      (batch : List ChunkRecord) (s : Indexer L)
      → Safe s
      → Ensures Safe
          (λ m s'. Safe s' × (stored s' ≡ stored s ++ batch) × (m ≡ length batch))
          (store_staging_batch embed_corpus batch s)
  unfolding store_staging_batch
  store-stored batch s g =
      add_batch-stored (length batch) (to_rows embed_corpus batch) batch s
        (to_rows-chunks embed_corpus batch) g

  -- All chunks so far, stored or waiting, and how many are counted.
  abbrev pub chunks_so_far : Progress → Indexer L → List ChunkRecord
  chunks_so_far p s = stored s ++ p.batch

  abbrev pub count_so_far : Progress → ℕ
  count_so_far p = p.total_chunks + length p.batch

  -- What storing changes in the variables.
  pub record Stored (p : Progress) (s : Indexer L) (p' : Progress) (s' : Indexer L) : Type 0 where
    pub together : chunks_so_far p' s' ≡ chunks_so_far p s
    pub counted : count_so_far p' ≡ count_so_far p
    pub errors : p'.parse_errors ≡ p.parse_errors
    pub names : p'.all_aliases ≡ p.all_aliases

  abbrev pub StoredIf : Progress → Indexer L → Indexer L × Progress × Stop → Type 0
  StoredIf p s (s', p', finished) = Safe s' × Stored p s p' s'
  StoredIf p s (s', p', interrupted) = Safe s'
  StoredIf p s (s', p', raised) = Safe s'

  after_store-Stored :
      (p : Progress) (s : Indexer L) (r : Indexer L × Option ℕ)
      → Ensures Safe (λ m s'. Safe s' × (stored s' ≡ stored s ++ p.batch) × (m ≡ length p.batch)) r
      → StoredIf p s (after_store embed_corpus p r)
  unfolding after_store
  after_store-Stored p s (s', none) e = e
  after_store-Stored p s (s', some n) e = (
    e.0,
    record {
      together = append-nil (stored s') ∙ e.1;
      counted = omega (arith, e.2);
      errors = refl;
      names = refl;
    },
  )

  pub store_if-Stored :
      (batch_size : ℕ) (parsed : Bool) (p : Progress) (s : Indexer L)
      → Safe s
      → StoredIf p s (store_if embed_corpus batch_size parsed p s)
  unfolding store_if
  store_if-Stored batch_size parsed p s g =
      elim (Bool-cases (parsed && leb batch_size (length p.batch))) [
        | inl full ↦ rw full (
            after_store-Stored p s (store_staging_batch embed_corpus p.batch s)
              (store-stored p.batch s g))
        | inr more ↦
            rw more (g, record { together = refl; counted = refl; errors = refl; names = refl })
      ]
