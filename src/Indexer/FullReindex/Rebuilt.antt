-- ===== src/Indexer/FullReindex/Rebuilt.antt =====
-- `full_reindex` of src/vault_search/core/indexer.py as a whole.
use vault_search_mcp.Prelude.{ℕ, false, Option, List, [], ◌≡◌, refl, ◌∙◌, nat_eq, string_eq}
use vault_search_mcp.Prelude.Text.{Text}
use vault_search_mcp.Indexer.Database.{
  Lance, IsLawful, Table, Kind, Row, Call, canonical, staging, chunks, links, aliases, same_table,
  same_kind, effect, create,
}
use vault_search_mcp.Indexer.State.{Indexer, continue, call, list_tables}
use vault_search_mcp.Indexer.Rules.{
  Ensures, Ensures-continue, Ensures-weaken, Ensures-with, Ensures-ended, rows-call_other,
  rows-call_done,
}
use vault_search_mcp.Indexer.FullReindex.Staging.{Completed, reset_staging_tables, use_staging}
use vault_search_mcp.Indexer.Vector.{VectorSettings}
use vault_search_mcp.Indexer.FullReindex.Run.{full_reindex}
use vault_search_mcp.Indexer.FullReindex.Guarded.{OnStaging}
use vault_search_mcp.Indexer.FullReindex.Promised.{Preserved, IsAllOrNothing}
use vault_search_mcp.Indexer.FullReindex.Phases.{run_loop-IsAllOrNothing, Kept}

module _ {L : Lance} (lawful : IsLawful L) (base : Table → List Row) (notes : List Completed) where
  -- A call on a staging table leaves the public ones alone.
  staged-Preserved :
      (k : Kind) (c : Call L.Version) (s : Indexer L)
      → Kept lawful base notes s
      → Ensures (Kept lawful base notes) (λ _. (Kept lawful base notes)) (call (staging k) c s)
  unfolding same_table call
  staged-Preserved k c s h =
      Ensures-ended (Kept lawful base notes) (call (staging k) c s)
        (λ j. rows-call_other lawful (staging k) (canonical j) c s.db refl ∙ h j)

  -- What is known of the staging table of the chunks.
  abbrev IsReset : Indexer L → Type 0
  IsReset s = Kept lawful base notes s × (L.rows (staging chunks) s.db ≡ [])

  links-IsReset :
      (k : Kind) (s : Indexer L)
      → same_kind k chunks ≡ false
      → IsReset s
      → Ensures (Kept lawful base notes) (λ _. IsReset) (call (staging k) (create []) s)
  unfolding same_table call
  links-IsReset k s f h =
      Ensures-weaken (Kept lawful base notes) (λ _ s'. Kept lawful base notes s' × IsReset s')
        (λ _. IsReset) (call (staging k) (create []) s)
        (Ensures-with (Kept lawful base notes) (λ _. (Kept lawful base notes)) (λ _. IsReset)
          (call (staging k) (create []) s) (staged-Preserved k (create []) s h.0)
          (λ a e. (
            λ j. rows-call_other lawful (staging k) (canonical j) (create []) s.db refl ∙ h.0 j,
            rows-call_other lawful (staging k) (staging chunks) (create []) s.db f ∙ h.1,
          )))
        (λ _ s' b. b.1)

  reset_staging_tables-IsReset :
      (s : Indexer L)
      → Kept lawful base notes s
      → Ensures (Kept lawful base notes) (λ _. IsReset) (reset_staging_tables s)
  unfolding reset_staging_tables list_tables effect same_kind
  reset_staging_tables-IsReset s h =
      Ensures-continue (Kept lawful base notes) (λ _. (Kept lawful base notes)) (λ _. IsReset)
        (list_tables s) _
        (Ensures-ended (Kept lawful base notes) (list_tables s)
          (λ k. lawful.rows-list_tables (canonical k) s.db ∙ h k))
        λ names s1 h1.
          Ensures-continue (Kept lawful base notes) (λ _. IsReset) (λ _. IsReset)
            (call (staging chunks) (create []) s1) _
            (Ensures-with (Kept lawful base notes) (λ _. (Kept lawful base notes))
              (λ _ s'. L.rows (staging chunks) s'.db ≡ []) (call (staging chunks) (create []) s1)
              (staged-Preserved chunks (create []) s1 h1)
              (λ a e. rows-call_done lawful (staging chunks) (create []) s1 a e))
            λ _ s2 h2.
              Ensures-continue (Kept lawful base notes) (λ _. IsReset) (λ _. IsReset)
                (call (staging links) (create []) s2) _ (links-IsReset links s2 refl h2)
                (λ _ s3 h3. links-IsReset aliases s3 refl h3)

module _ {L : Lance} (lawful : IsLawful L) (v : VectorSettings)
    (embed_corpus : List Text → Option (List (List ℕ))) (normalize stem : Text → Text) where
  -- Over a database that obeys the laws, `full_reindex`, however its calls fail, publishes or
  -- preserves. With status `completed` the public
  -- chunk table holds exactly the chunks of the notes that were parsed, in the order in which they
  -- completed and whatever the batch size, their number is `total_chunks`, no note failed to parse, and
  -- each public table holds what its staging table holds. With another status, or if the method
  -- raises, the public tables hold what they did if no rollback failed. Where it returns, no handle is
  -- left on a staging table.
  pub full_reindex-IsAllOrNothing :
      (batch_size : ℕ) (notes : List Completed) (s : Indexer L)
      → IsAllOrNothing lawful
          (λ u. L.rows u s.db)
          notes
          (full_reindex v embed_corpus normalize stem batch_size notes s)
  unfolding full_reindex use_staging
  full_reindex-IsAllOrNothing batch_size notes s =
      let base : Table → List Row = λ u. L.rows u s.db in
      let kept : Indexer L → Type 0 = Preserved lawful base notes in
      run_loop-IsAllOrNothing lawful base notes v embed_corpus normalize stem batch_size
        (continue (reset_staging_tables s) (λ _. use_staging))
        (Ensures-continue kept (λ _. IsReset lawful base notes)
          (λ _ s1. OnStaging s1 × kept s1 × (L.rows (staging chunks) s1.db ≡ []))
          (reset_staging_tables s) _ (reset_staging_tables-IsReset lawful base notes s (λ k. refl))
          (λ _ s1 h. (record { table = refl; links_table = refl; aliases_table = refl }, h.0, h.1)))
