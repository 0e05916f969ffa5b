-- ===== src/Indexer/FullReindex/Promised.antt =====
-- What a run of `full_reindex` promises, and its last phases.
use vault_search_mcp.Prelude.{
  ℕ, false, Option, none, some, List, [], ◌≡◌, refl, ◌∙◌, ap, sym, nat_eq, string_eq, length,
}
use vault_search_mcp.Indexer.Database.{
  Lance, IsLawful, Table, Kind, Row, canonical, staging, chunks, links, aliases,
}
use vault_search_mcp.Indexer.State.{Indexer, handle}
use vault_search_mcp.Indexer.NoteRecords.Apply.{rollback}
use vault_search_mcp.Indexer.Rules.{Ensures, Exactly}
use vault_search_mcp.Indexer.NoteRecords.Atomic.{Undoable, rollback-Undoable, snapped}
use vault_search_mcp.Indexer.FullReindex.Staging.{Completed, Progress}
use vault_search_mcp.Indexer.Vector.{VectorSettings}
use vault_search_mcp.Indexer.FullReindex.Run.{
  FullReindexStatus, completed, failed, interrupted_early, FullReindexStats, FullResult, escaped,
  stats, failure, end_failure, failure_stats, end_or_again, failure_or_again,
  restore_canonical_handles, commit, build_indexes, use_canonical, end_commit, end_graph,
}
use vault_search_mcp.Indexer.FullReindex.Batches.{chunks_in, parsed_chunks, errors_in}
use vault_search_mcp.Indexer.FullReindex.Commit.{published, Put, commit-Put}
use vault_search_mcp.Indexer.FullReindex.Ending.{restore_canonical_handles-Off}
use vault_search_mcp.Indexer.FullReindex.Still.{build_indexes_same, is_staging, OffStaging}

module _ {L : Lance} (lawful : IsLawful L) (base : Table → List Row) (notes : List Completed) where
  -- The public tables hold what they did.
  abbrev pub Preserved : Indexer L → Type 0
  Preserved s = (k : Kind) → L.rows (canonical k) s.db ≡ base (canonical k)

  -- The public tables hold what the run put together, with all chunks of the notes.
  pub record Rebuilt (result : FullReindexStats) (after : Indexer L) : Type 0 where
    pub chunks_found : chunks_in (L.rows (canonical chunks) after.db) ≡ parsed_chunks notes
    pub counted : result.total_chunks ≡ length (parsed_chunks notes)
    pub no_errors : errors_in notes ≡ 0
    pub from_staging : (k : Kind) → L.rows (canonical k) after.db ≡ L.rows (staging k) after.db

  abbrev pub Promise : FullReindexStatus → FullReindexStats → ℕ → Indexer L → Type 0
  Promise completed result logged after = Rebuilt result after
  Promise failed result logged after = logged ≡ 0 → Preserved after
  Promise interrupted_early result logged after = logged ≡ 0 → Preserved after

  -- What a run promises: if it raises, the public tables are as before; if it returns, its status says
  -- what is in them, and no handle is on a staging table.
  abbrev pub IsAllOrNothing : Indexer L × FullResult × ℕ → Type 0
  IsAllOrNothing (after, escaped, logged) = logged ≡ 0 → Preserved after
  IsAllOrNothing (after, stats result, logged) =
      Promise result.status result logged after × OffStaging lawful after

  -- The end of a run that failed.
  end_failure-IsAllOrNothing :
      (result : FullReindexStats) (logged : ℕ) (r : Indexer L × Option (Unit {0}))
      → ((after : Indexer L)
          → (logged ≡ 0 → Preserved after)
          → Promise result.status result logged after)
      → Ensures
          (λ s. logged ≡ 0 → Preserved s)
          (λ _ s. (logged ≡ 0 → Preserved s) × OffStaging lawful s)
          r
      → IsAllOrNothing (end_failure result logged r)
  unfolding end_failure
  end_failure-IsAllOrNothing result logged (s, none) p e = e
  end_failure-IsAllOrNothing result logged (s, some a) p e = (p s e.0, e.1)

  restored :
      (logged : ℕ) (s : Indexer L)
      → (logged ≡ 0 → Preserved s)
      → Ensures
          (λ s'. logged ≡ 0 → Preserved s')
          (λ _ s'. (logged ≡ 0 → Preserved s') × OffStaging lawful s')
          (restore_canonical_handles s)
  restored logged s p =
      ended (restore_canonical_handles s)
        (restore_canonical_handles-Off lawful (λ u. L.rows u s.db) s (λ u. refl))
    where
      ended :
          (r : Indexer L × Option (Unit {0}))
          → Ensures
              (Exactly lawful (λ u. L.rows u s.db))
              (λ _ s'. Exactly lawful (λ u. L.rows u s.db) s' × OffStaging lawful s')
              r
          → Ensures
              (λ s'. logged ≡ 0 → Preserved s')
              (λ _ s'. (logged ≡ 0 → Preserved s') × OffStaging lawful s')
              r
      ended (s', none) e = λ z k. e (canonical k) ∙ p z k
      ended (s', some a) e = (λ z k. e.0 (canonical k) ∙ p z k, e.1)

  pub failed-IsAllOrNothing :
      (p : Progress) (logged : ℕ) (s : Indexer L)
      → (logged ≡ 0 → Preserved s)
      → IsAllOrNothing (failure_stats failed p logged s)
  unfolding failure_stats failure
  failed-IsAllOrNothing p logged s h =
      end_failure-IsAllOrNothing (failure failed p) logged (restore_canonical_handles s)
        (λ after q. q) (restored logged s h)

  -- The end of a run that failed inside the `try`.
  end_or_again-IsAllOrNothing :
      (status : FullReindexStatus) (p : Progress) (logged : ℕ) (r : Indexer L × Option (Unit {0}))
      → ((after : Indexer L)
          → (logged ≡ 0 → Preserved after)
          → Promise status (failure status p) logged after)
      → Ensures
          (λ s. logged ≡ 0 → Preserved s)
          (λ _ s. (logged ≡ 0 → Preserved s) × OffStaging lawful s)
          r
      → IsAllOrNothing (end_or_again status p logged r)
  unfolding end_or_again failure
  end_or_again-IsAllOrNothing status p logged (s, none) h e = failed-IsAllOrNothing p logged s e
  end_or_again-IsAllOrNothing status p logged (s, some a) h e = (h s e.0, e.1)

  pub again-IsAllOrNothing :
      (p : Progress) (logged : ℕ) (s : Indexer L)
      → (logged ≡ 0 → Preserved s)
      → IsAllOrNothing (failure_or_again failed p logged s)
  unfolding failure_or_again
  again-IsAllOrNothing p logged s h =
      end_or_again-IsAllOrNothing failed p logged (restore_canonical_handles s) (λ after q. q)
        (restored logged s h)

  pub interrupted-IsAllOrNothing :
      (p : Progress) (logged : ℕ) (s : Indexer L)
      → (logged ≡ 0 → Preserved s)
      → IsAllOrNothing (failure_or_again interrupted_early p logged s)
  unfolding failure_or_again
  interrupted-IsAllOrNothing p logged s h =
      end_or_again-IsAllOrNothing interrupted_early p logged (restore_canonical_handles s)
        (λ after q. q) (restored logged s h)

  -- What is known before the commit.
  pub record Ready (p : Progress) (s : Indexer L) : Type 0 where
    pub preserved : Preserved s
    pub collected : chunks_in (L.rows (staging chunks) s.db) ≡ parsed_chunks notes
    pub counted : p.total_chunks ≡ length (parsed_chunks notes)
    pub no_errors : errors_in notes ≡ 0

  use_canonical-OffStaging : (s : Indexer L) → OffStaging lawful (use_canonical s)
  unfolding use_canonical handle is_staging
  use_canonical-OffStaging s chunks = refl
  use_canonical-OffStaging s links = refl
  use_canonical-OffStaging s aliases = refl

  counted_off :
      (n : ℕ) (s : Indexer L)
      → OffStaging lawful s
      → OffStaging lawful (record s { operations_since_compact = n })
  unfolding handle
  counted_off n s o chunks = o chunks
  counted_off n s o links = o links
  counted_off n s o aliases = o aliases

  end_commit-IsAllOrNothing :
      (v : VectorSettings) (p : Progress) (totals : ℕ × ℕ) (s : Indexer L)
      (r : Indexer L × Option (Unit {0}))
      → Ready p s
      → Ensures
          (λ s'. Undoable lawful (λ u. L.rows u s.db) s'.snapshots s'.db)
          (λ _. Exactly lawful (published (λ u. L.rows u s.db)))
          r
      → IsAllOrNothing (end_commit v p totals r)
  unfolding end_commit published use_canonical
  end_commit-IsAllOrNothing v p totals s (s', none) ready e =
      failed-IsAllOrNothing p (rollback s'.snapshots s').1 (rollback s'.snapshots s').0 (λ z k.
        rollback-Undoable lawful (λ u. L.rows u s.db) s'.snapshots s' e z (canonical k)
        ∙ ready.preserved k)
  end_commit-IsAllOrNothing v p totals s (s', some a) ready e =
      let built = build_indexes_same lawful v (use_canonical s') in
      (
        record {
          chunks_found =
              ap chunks_in (built.rows (canonical chunks) ∙ e (canonical chunks)) ∙ ready.collected;
          counted = ready.counted;
          no_errors = ready.no_errors;
          from_staging = λ k.
              (built.rows (canonical k) ∙ e (canonical k))
              ∙ sym (built.rows (staging k) ∙ e (staging k));
        },
        counted_off 0 (build_indexes v (use_canonical s')).0
            (λ k. rw (built.handles k) (use_canonical-OffStaging s' k)),
      )

  start-Put :
      (s : Indexer L)
      → Put lawful
          (λ u. L.rows u s.db)
          (λ u. L.rows u s.db)
          (λ u. false)
          (record s { snapshots = [] })
  unfolding snapped
  start-Put s = record {
    undo = record { untouched = λ u f. refl; hold = tt };
    exact = λ u. refl;
    snapshots = λ u. refl;
  }

  pub end_graph-IsAllOrNothing :
      (v : VectorSettings) (p : Progress) (r : Indexer L × Option (ℕ × ℕ))
      → Ensures Preserved (λ _. Ready p) r
      → IsAllOrNothing (end_graph v p r)
  unfolding end_graph
  end_graph-IsAllOrNothing v p (s, none) e = failed-IsAllOrNothing p 0 s (λ z. e)
  end_graph-IsAllOrNothing v p (s, some totals) e =
      end_commit-IsAllOrNothing v p totals s (commit (record s { snapshots = [] })) e
        (commit-Put lawful (λ u. L.rows u s.db) (record s { snapshots = [] }) (start-Put s))
