-- ===== src/EnrichmentJobs/History.antt =====
-- Pruning leaves at most the allowed number of ended jobs.
use text.Mathlib.TextEquality.{eq_iff}
use vault_search_mcp.Prelude.{
  ℕ, List, String, [], ◌∷◌, ◌≡◌, refl, arith, none, take, suc, zero, true, ◌+◌, length, ap, ◌∙◌,
  string_eq, nat_eq, length-take, ◌-◌, ◌≤◌,
}
use vault_search_mcp.Dict.{Dict, lookup, Distinct, keys, remove, contains}
use vault_search_mcp.Dict.Laws.{lookup-remove, length-remove, remove-Distinct, contains-eq-lookup}
use vault_search_mcp.EnrichmentJobs.{
  Job, terminal, insert_by_created, remove_all, sort_by_created, prune_terminal_jobs,
}
use vault_search_mcp.EnrichmentJobs.Pruning.{
  terminal_absent, insert_by_absent, sort_absent, take_absent,
}

terminal-remove : (k : String) (d : Dict String Job) → terminal (remove k d) ≡ remove k (terminal d)
unfolding terminal remove
terminal-remove k [] = refl
terminal-remove k ((i, j) ∷ d) = ground (arith, terminal-remove k d)

terminal-remove_all :
    (ids : List String) (d : Dict String Job)
    → terminal (remove_all ids d) ≡ remove_all ids (terminal d)
unfolding remove_all
terminal-remove_all [] d = refl
terminal-remove_all (id ∷ ids) d =
    terminal-remove_all ids (remove id d) ∙ ap (remove_all ids) (terminal-remove id d)

terminal-Distinct : (d : Dict String Job) → Distinct d → Distinct (terminal d)
unfolding terminal
terminal-Distinct [] v = tt
terminal-Distinct ((i, j) ∷ d) v = ground (arith, terminal-Distinct d v.1, terminal_absent i d v.0)

insert_by-Distinct :
    (i : String) (job : Job) (d : Dict String Job)
    → lookup i d ≡ none
    → Distinct d
    → Distinct (insert_by_created i job d)
unfolding insert_by_created lookup
insert_by-Distinct i job [] h v = (refl, tt)
insert_by-Distinct i job ((i', j) ∷ d) h v =
    ground
      (arith, insert_by-Distinct i job d, insert_by_absent i' i job d, eq_iff i i', eq_iff i' i)

sort-Distinct : (d : Dict String Job) → Distinct d → Distinct (sort_by_created d)
unfolding sort_by_created
sort-Distinct [] v = tt
sort-Distinct ((i, j) ∷ d) v =
    insert_by-Distinct i j (sort_by_created d) (sort_absent i d v.0) (sort-Distinct d v.1)

take-Distinct : (n : ℕ) (d : Dict String Job) → Distinct d → Distinct (take n d)
take-Distinct zero d v = tt
take-Distinct (suc n) [] v = tt
take-Distinct (suc n) ((i, j) ∷ d) v = (take_absent i n d v.0, take-Distinct n d v.1)

length-insert_by :
    (i : String) (job : Job) (d : Dict String Job)
    → length (insert_by_created i job d) ≡ suc (length d)
unfolding insert_by_created
length-insert_by i job [] = refl
length-insert_by i job ((i', j) ∷ d) = ground (arith, length-insert_by i job d)

length-sort : (d : Dict String Job) → length (sort_by_created d) ≡ length d
unfolding sort_by_created
length-sort [] = refl
length-sort ((i, j) ∷ d) = omega (arith, length-insert_by i j (sort_by_created d), length-sort d)

-- Every key of the first is a key of the second.
abbrev Covers : Dict String Job → Dict String Job → Type 0
Covers ts d = (k : String) → lookup k d ≡ none → lookup k ts ≡ none

remove-Covers :
    (i : String) (j : Job) (ts d : Dict String Job)
    → lookup i ts ≡ none
    → Covers ((i, j) ∷ ts) d
    → Covers ts (remove i d)
unfolding lookup
remove-Covers i j ts d a h k e = ground (arith, lookup-remove i k d, h k, eq_iff i k)

contains_covered :
    (i : String) (j : Job) (ts d : Dict String Job) → Covers ((i, j) ∷ ts) d → contains i d ≡ true
unfolding lookup
contains_covered i j ts d h = ground (arith, contains-eq-lookup i d, h i, eq_iff i i)

length-remove_all :
    (ts d : Dict String Job)
    → Distinct ts
    → Distinct d
    → Covers ts d
    → length (remove_all (keys ts) d) + length ts ≡ length d
unfolding remove_all
length-remove_all [] d v u h = omega arith
length-remove_all ((i, j) ∷ ts) d v u h = ground (
  arith,
  length-remove_all ts (remove i d) v.1 (remove-Distinct i d u) (remove-Covers i j ts d v.0 h),
  length-remove i d u,
  contains_covered i j ts d h,
)

length-remove_oldest :
    (over : ℕ) (d : Dict String Job)
    → Distinct d
    → over ≤ length d
    → length (remove_all (keys (take over (sort_by_created d))) d) + over ≡ length d
length-remove_oldest over d v h = omega (
  arith,
  length-remove_all (take over (sort_by_created d)) d
      (take-Distinct over (sort_by_created d) (sort-Distinct d v)) v
      (λ k e. take_absent k over (sort_by_created d) (sort_absent k d e)),
  length-take over (sort_by_created d),
  length-sort d,
)

-- After pruning a dictionary of jobs, at most `max_history` of its jobs have ended.
pub length-prune_terminal_jobs :
    (max_history : ℕ) (jobs : Dict String Job)
    → Distinct jobs
    → length (terminal (prune_terminal_jobs max_history jobs)) ≤ max_history
unfolding prune_terminal_jobs
length-prune_terminal_jobs max_history jobs v =
    let over = length (terminal jobs) - max_history in
    ground (
      arith,
      terminal-remove_all (keys (take over (sort_by_created (terminal jobs)))) jobs,
      length-remove_oldest over (terminal jobs) (terminal-Distinct jobs v) (omega arith),
    )
