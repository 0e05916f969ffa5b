-- ===== src/EnrichmentJobs/Pruning.antt =====
-- Pruning the history leaves every job that has not ended.
use text.Mathlib.TextEquality.{eq_iff}
use vault_search_mcp.Prelude.{
  ℕ, String, [], ◌∷◌, ◌≡◌, refl, arith, none, some, take, suc, zero, false, Bool-cases, inl, inr,
  ◌-◌, length, leb, ◌==◌, ◌∙◌, nat_eq, string_eq,
}
use vault_search_mcp.Dict.{Dict, lookup, Distinct, keys, remove}
use vault_search_mcp.Dict.Laws.{lookup-remove}
use vault_search_mcp.EnrichmentJobs.{
  Job, prune_terminal_jobs, terminal, insert_by_created, is_terminal, remove_all, sort_by_created,
}

pub terminal_absent :
    (k : String) (d : Dict String Job) → lookup k d ≡ none → lookup k (terminal d) ≡ none
unfolding terminal lookup
terminal_absent k [] h = refl
terminal_absent k ((i, j) ∷ d) h = ground (arith, terminal_absent k d, eq_iff i k)

terminal_running :
    (k : String) (job : Job) (d : Dict String Job)
    → Distinct d
    → lookup k d ≡ some job
    → is_terminal job.status ≡ false
    → lookup k (terminal d) ≡ none
unfolding terminal lookup
terminal_running k job [] v h f = refl
terminal_running k job ((i, j) ∷ d) v h f =
    ground (arith, terminal_running k job d v.1, terminal_absent k d, eq_iff i k, v.0)

pub insert_by_absent :
    (k i : String) (job : Job) (d : Dict String Job)
    → (i == k) ≡ false
    → lookup k d ≡ none
    → lookup k (insert_by_created i job d) ≡ none
unfolding insert_by_created lookup
insert_by_absent k i job [] f h = ground arith
insert_by_absent k i job ((i', j) ∷ d) f h = ground (arith, insert_by_absent k i job d f)

pub sort_absent :
    (k : String) (d : Dict String Job) → lookup k d ≡ none → lookup k (sort_by_created d) ≡ none
unfolding sort_by_created lookup
sort_absent k [] h = refl
sort_absent k ((i, j) ∷ d) h =
    insert_by_absent k i j (sort_by_created d) (ground arith) (sort_absent k d (ground arith))

pub take_absent :
    (k : String) (n : ℕ) (d : Dict String Job) → lookup k d ≡ none → lookup k (take n d) ≡ none
unfolding lookup
take_absent k zero d h = refl
take_absent k (suc n) [] h = refl
take_absent k (suc n) ((i, j) ∷ d) h = ground (arith, take_absent k n d)

remove_all_absent :
    (k : String) (d e : Dict String Job)
    → lookup k d ≡ none
    → lookup k (remove_all (keys d) e) ≡ lookup k e
unfolding remove_all lookup
remove_all_absent k [] e h = refl
remove_all_absent k ((i, j) ∷ d) e h =
    remove_all_absent k d (remove i e) (ground arith) ∙ ground (arith, lookup-remove i k e)

-- Pruning the history of ended jobs keeps every job that is queued or running.
pub lookup-prune_terminal_jobs :
    (k : String) (job : Job) (max_history : ℕ) (jobs : Dict String Job)
    → Distinct jobs
    → lookup k jobs ≡ some job
    → is_terminal job.status ≡ false
    → lookup k (prune_terminal_jobs max_history jobs) ≡ some job
unfolding prune_terminal_jobs
lookup-prune_terminal_jobs k job max_history jobs v h f =
    elim (Bool-cases (leb (length (terminal jobs)) max_history)) [
      | inl t ↦ rw (t, prune_terminal_jobs) h
      | inr g ↦
          rw (g, prune_terminal_jobs)
            (remove_all_absent k
                (take (length (terminal jobs) - max_history) (sort_by_created (terminal jobs))) jobs
                (take_absent k _ _ (sort_absent k _ (terminal_running k job jobs v h f)))
              ∙ h)
    ]
