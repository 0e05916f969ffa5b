-- ===== src/EnrichmentJobs/Counters.antt =====
-- The counters of the jobs and the bound of the queue, kept by every step of every thread.
use vault_search_mcp.Prelude.{
  take, ◌-◌, if◌then◌else◌, ℕ, List, String, Bool, [], ◌∷◌, ◌≡◌, refl, true, false, arith,
  Bool-cases, length, ◌≤◌, ◌<◌, ◌+◌, inl, inr, some, length-append, nat_eq, string_eq, leb, ltb,
  ◌==◌, if◌then◌else◌, Option, not, ◌∙◌,
}
use vault_search_mcp.Dict.{keys, Dict, lookup, insert, remove}
use vault_search_mcp.EnrichmentJobs.{
  Manager, Job, init, enqueue, add_result, prune_terminal_jobs, Entry, new_job, remove_all,
  terminal, Worker, admit, begin, complete, exited, fail, md_paths, take_job, EnqueueResult,
  sort_by_created,
}

-- Each result is a success or a failure, and is kept or counted as truncated.
pub record Balanced (max_results : ℕ) (job : Job) : Type 0 where
  pub outcomes : job.succeeded + job.failures ≡ job.processed
  pub kept : job.returned ≡ length job.results
  pub bounded : job.returned ≤ max_results
  pub all_counted : job.returned + job.truncated ≡ job.processed

abbrev pub AllBalanced : ℕ → Dict String Job → Type 0
AllBalanced n [] = Unit
AllBalanced n ((id, job) ∷ jobs) = Balanced n job × AllBalanced n jobs

pub insert-AllBalanced :
    (n : ℕ) (id : String) (job : Job) (jobs : Dict String Job)
    → Balanced n job
    → AllBalanced n jobs
    → AllBalanced n (insert id job jobs)
unfolding insert
insert-AllBalanced n id job [] b h = (b, tt)
insert-AllBalanced n id job ((i, j) ∷ jobs) b h = elim (Bool-cases (i == id)) [
  | inl t ↦ rw (t, insert) (b, h.1)
  | inr f ↦ rw (f, insert) (h.0, insert-AllBalanced n id job jobs b h.1)
]

remove-AllBalanced :
    (n : ℕ) (id : String) (jobs : Dict String Job)
    → AllBalanced n jobs
    → AllBalanced n (remove id jobs)
unfolding remove
remove-AllBalanced n id [] h = tt
remove-AllBalanced n id ((i, j) ∷ jobs) h = elim (Bool-cases (i == id)) [
  | inl t ↦ rw (t, remove) (remove-AllBalanced n id jobs h.1)
  | inr f ↦ rw (f, remove) (h.0, remove-AllBalanced n id jobs h.1)
]

remove_all-AllBalanced :
    (n : ℕ) (ids : List String) (jobs : Dict String Job)
    → AllBalanced n jobs
    → AllBalanced n (remove_all ids jobs)
unfolding remove_all
remove_all-AllBalanced n [] jobs h = h
remove_all-AllBalanced n (id ∷ ids) jobs h =
    remove_all-AllBalanced n ids (remove id jobs) (remove-AllBalanced n id jobs h)

choose-AllBalanced :
    (n : ℕ) (b : Bool) (xs ys : Dict String Job)
    → AllBalanced n xs
    → AllBalanced n ys
    → AllBalanced n (if b then xs else ys)
choose-AllBalanced n true xs ys h k = h
choose-AllBalanced n false xs ys h k = k

prune-AllBalanced :
    (n max_history : ℕ) (jobs : Dict String Job)
    → AllBalanced n jobs
    → AllBalanced n (prune_terminal_jobs max_history jobs)
unfolding prune_terminal_jobs
prune-AllBalanced n max_history jobs h =
    let ids =
      keys (take (length (terminal jobs) - max_history) (sort_by_created (terminal jobs))) in
    choose-AllBalanced n (leb (length (terminal jobs)) max_history) jobs (remove_all ids jobs) h
      (remove_all-AllBalanced n ids jobs h)

pub lookup-Balanced :
    (n : ℕ) (id : String) (job : Job) (jobs : Dict String Job)
    → AllBalanced n jobs
    → lookup id jobs ≡ some job
    → Balanced n job
unfolding lookup
lookup-Balanced n id job [] h e = ground arith
lookup-Balanced n id job ((i, j) ∷ jobs) h e = elim (Bool-cases (i == id)) [
  | inl t ↦ let eq : job ≡ j = ground arith in rw eq h.0
  | inr f ↦ lookup-Balanced n id job jobs h.1 (ground arith)
]

new_job-Balanced : (n : ℕ) (reason : String) (now total : ℕ) → Balanced n (new_job reason now total)
unfolding new_job
new_job-Balanced n reason now total = record {
  outcomes = refl;
  kept = refl;
  bounded = omega arith;
  all_counted = refl;
}

pub add_result-Balanced :
    (n : ℕ) (entry : Entry) (job : Job) → Balanced n job → Balanced n (add_result n entry job)
unfolding add_result
add_result-Balanced n entry job b = elim (Bool-cases (ltb (length job.results) n)) [
  | inl t ↦ record {
    outcomes = ground (arith, b.outcomes);
    kept = ground (arith, b.kept, length-append job.results (entry ∷ []));
    bounded = ground (arith, b.kept);
    all_counted = ground (arith, b.all_counted);
  }
  | inr f ↦ record {
    outcomes = ground (arith, b.outcomes);
    kept = ground (arith, b.kept);
    bounded = ground (arith, b.bounded);
    all_counted = ground (arith, b.all_counted);
  }
]

-- The manager's invariant.
pub record IsValid (m : Manager) : Type 0 where
  pub positive : 0 < m.max_pending
  pub queue_bounded : length m.queue ≤ m.max_pending
  pub balanced : AllBalanced m.max_results m.jobs

pub init-IsValid : (a b c d : ℕ) → IsValid (init a b c d)
unfolding init
init-IsValid a b c d = record { positive = omega arith; queue_bounded = omega arith; balanced = tt }

if-IsValid :
    (b : Bool) (x y : Manager × EnqueueResult)
    → (b ≡ true → IsValid x.0)
    → (b ≡ false → IsValid y.0)
    → IsValid (if b then x else y).0
if-IsValid true x y h k = h refl
if-IsValid false x y h k = k refl

admit-IsValid :
    (id : String) (now : ℕ) (reason : String) (paths : List String) (m : Manager)
    → IsValid m
    → IsValid (admit id now reason paths m).0
unfolding admit
admit-IsValid id now reason paths m v =
    if-IsValid (not m.accepting) _ _ (λ _. v)
      λ _.
        if-IsValid (leb m.max_pending (length m.queue)) _ _ (λ _. v)
          λ free. record {
            positive = v.positive;
            queue_bounded = ground (arith, free, length-append m.queue ((id, paths) ∷ []));
            balanced = prune-AllBalanced m.max_results m.max_history _ (
                insert-AllBalanced m.max_results id _ m.jobs
                  (new_job-Balanced m.max_results reason now (length paths)) v.balanced);
          }

pub enqueue-IsValid :
    (ai : Bool) (id : String) (now : ℕ) (paths : List String) (reason : String) (m : Manager)
    → IsValid m
    → IsValid (enqueue ai id now paths reason m).0
unfolding enqueue
enqueue-IsValid ai id now paths reason m v =
    if-IsValid (leb (length (md_paths [] paths)) 0) _ _ (λ _. v)
      λ _.
        if-IsValid (ltb m.max_paths_per_job (length (md_paths [] paths))) _ _ (λ _. v)
          λ _.
            if-IsValid (not ai) _ _ (λ _. v)
              λ _. admit-IsValid id now reason (md_paths [] paths) m v

-- A change of the jobs alone, and of the worker.
pub with_jobs-IsValid :
    (m : Manager) (jobs : Dict String Job) (w : Worker) (reindexed : List String)
    → IsValid m
    → AllBalanced m.max_results jobs
    → IsValid (record m { jobs = jobs; worker = w; reindexed = reindexed })
with_jobs-IsValid m jobs w reindexed v h = record {
  positive = v.positive;
  queue_bounded = v.queue_bounded;
  balanced = h;
}

choose-IsValid : (b : Bool) (x y : Manager) → IsValid x → IsValid y → IsValid (if b then x else y)
choose-IsValid true x y h k = h
choose-IsValid false x y h k = k

pub take_job-IsValid :
    (queue : List (String × List String)) (m : Manager)
    → IsValid m
    → length queue ≤ length m.queue
    → IsValid (take_job queue m)
unfolding take_job
take_job-IsValid [] m v h =
    choose-IsValid m.stop _ m (with_jobs-IsValid m m.jobs exited m.reindexed v v.balanced) v
take_job-IsValid ((id, paths) ∷ queue) m v h = record {
  positive = v.positive;
  queue_bounded = omega (arith, v.queue_bounded, h);
  balanced = v.balanced;
}

-- The changes of one job by the worker keep its counters balanced.
pub begin-Balanced : (n now : ℕ) (job : Job) → Balanced n job → Balanced n (begin now job)
unfolding begin
begin-Balanced n now job b = record {
  outcomes = b.outcomes;
  kept = b.kept;
  bounded = b.bounded;
  all_counted = b.all_counted;
}

pub complete-Balanced : (n now : ℕ) (job : Job) → Balanced n job → Balanced n (complete now job)
unfolding complete
complete-Balanced n now job b = record {
  outcomes = b.outcomes;
  kept = b.kept;
  bounded = b.bounded;
  all_counted = b.all_counted;
}

pub fail-Balanced : (n now : ℕ) (job : Job) → Balanced n job → Balanced n (fail now job)
unfolding fail
fail-Balanced n now job b = record {
  outcomes = b.outcomes;
  kept = b.kept;
  bounded = b.bounded;
  all_counted = b.all_counted;
}

-- A job that is found, changed by the worker, and stored again.
pub found-IsValid :
    (m : Manager) (id : String) (f : Job → Job) (w : Worker) (n : ℕ) (o : Option Job)
    → IsValid m
    → lookup id m.jobs ≡ o
    → ((job : Job) → Balanced m.max_results job → Balanced m.max_results (f job))
    → (job : Job) → o ≡ some job
    → IsValid (record m { jobs = prune_terminal_jobs n (insert id (f job) m.jobs); worker = w })
found-IsValid m id f w n o v e h job e' = with_jobs-IsValid m _ w m.reindexed v (
    prune-AllBalanced m.max_results n _ (
      insert-AllBalanced m.max_results id (f job) m.jobs
        (h job (lookup-Balanced m.max_results id job m.jobs v.balanced (e ∙ e'))) v.balanced))
