-- ===== src/EnrichmentJobs/Work.antt =====
-- Every step of the callers and of the worker keeps the manager's invariant.
use vault_search_mcp.Prelude.{
  ℕ, List, String, [], ◌∷◌, refl, arith, Option-cases, inl, inr, some, Bool-cases, nat_eq,
  string_eq,
}
use vault_search_mcp.Dict.{Dict, lookup, insert}
use vault_search_mcp.EnrichmentJobs.{
  Manager, Job, Step, Reach, work, Entry, WorkEvent, Worker, absent, add_result, at_loop, begin,
  begin_job, complete, complete_job, crashed, enqueues, entry_of, exited, fail, here, init,
  is_terminal, mark_job_failed, next, proceeds, refuses, run_path, signals, taken, update, work_at,
  working, works,
}
use vault_search_mcp.EnrichmentJobs.Counters.{
  IsValid, AllBalanced, Balanced, add_result-Balanced, begin-Balanced, complete-Balanced,
  enqueue-IsValid, fail-Balanced, found-IsValid, init-IsValid, insert-AllBalanced, lookup-Balanced,
  take_job-IsValid, with_jobs-IsValid,
}

begin_job-IsValid :
    (id : String) (paths : List String) (now : ℕ) (m : Manager)
    → IsValid m
    → IsValid (begin_job id paths now m)
unfolding begin_job
begin_job-IsValid id paths now m v = elim (Option-cases (lookup id m.jobs)) [
  | inl e ↦ rw (e, begin_job) (with_jobs-IsValid m m.jobs at_loop m.reindexed v v.balanced)
  | inr (job, e) ↦
      rw (e, begin_job)
        (with_jobs-IsValid m (insert id (begin now job) m.jobs) (working id paths) m.reindexed v (
          insert-AllBalanced m.max_results id (begin now job) m.jobs
            (begin-Balanced m.max_results now job
              (lookup-Balanced m.max_results id job m.jobs v.balanced e))
            v.balanced))
]

update-AllBalanced :
    (n : ℕ) (id : String) (f : Job → Job) (jobs : Dict String Job)
    → ((job : Job) → Balanced n job → Balanced n (f job))
    → AllBalanced n jobs
    → AllBalanced n (update id f jobs)
unfolding update
update-AllBalanced n id f jobs h a = elim (Option-cases (lookup id jobs)) [
  | inl e ↦ rw (e, update) a
  | inr (job, e) ↦
      rw (e, update)
        (insert-AllBalanced n id (f job) jobs (h job (lookup-Balanced n id job jobs a e)) a)
]

run_path-IsValid :
    (id path : String) (paths : List String) (entry : Entry) (m : Manager)
    → IsValid m
    → IsValid (run_path id path paths entry m)
unfolding run_path
run_path-IsValid id path paths entry m v = with_jobs-IsValid m _ (working id paths) _ v (
    update-AllBalanced m.max_results id (add_result m.max_results entry) m.jobs
      (add_result-Balanced m.max_results entry) v.balanced)

complete_job-IsValid :
    (id : String) (now : ℕ) (m : Manager) → IsValid m → IsValid (complete_job id now m)
unfolding complete_job
complete_job-IsValid id now m v = elim (Option-cases (lookup id m.jobs)) [
  | inl e ↦ rw (e, complete_job) (with_jobs-IsValid m m.jobs at_loop m.reindexed v v.balanced)
  | inr (job, e) ↦
      rw (e, complete_job)
        (found-IsValid m id (complete now) at_loop m.max_history (some job) v e
          (complete-Balanced m.max_results now) job refl)
]

mark_job_failed-IsValid :
    (id : String) (now : ℕ) (w : Worker) (m : Manager)
    → IsValid m
    → IsValid (record (mark_job_failed id now m) { worker = w })
unfolding mark_job_failed
mark_job_failed-IsValid id now w m v = elim (Option-cases (lookup id m.jobs)) [
  | inl e ↦ rw (e, mark_job_failed) (with_jobs-IsValid m m.jobs w m.reindexed v v.balanced)
  | inr (job, e) ↦ elim (Bool-cases (is_terminal job.status)) [
    | inl t ↦ rw (e, t, mark_job_failed) (with_jobs-IsValid m m.jobs w m.reindexed v v.balanced)
    | inr f ↦
        rw (e, f, mark_job_failed)
          (found-IsValid m id (fail now) w m.max_history (some job) v e
            (fail-Balanced m.max_results now) job refl)
  ]
]

work_at-IsValid : (w : Worker) (e : WorkEvent) (m : Manager) → IsValid m → IsValid (work_at w e m)
unfolding work_at
work_at-IsValid absent e m v = v
work_at-IsValid exited e m v = v
work_at-IsValid at_loop e m v = take_job-IsValid m.queue m v (omega arith)
work_at-IsValid (taken id paths) (proceeds now o) m v = begin_job-IsValid id paths now m v
work_at-IsValid (taken id paths) (crashed now) m v = begin_job-IsValid id paths now m v
work_at-IsValid (working id []) (crashed now) m v = mark_job_failed-IsValid id now at_loop m v
work_at-IsValid (working id (path ∷ paths)) (crashed now) m v =
    mark_job_failed-IsValid id now at_loop m v
work_at-IsValid (working id []) (proceeds now o) m v = complete_job-IsValid id now m v
work_at-IsValid (working id (path ∷ paths)) (proceeds now o) m v =
    run_path-IsValid id path paths (entry_of path o) m v

Step-IsValid : {m n : Manager} → Step m n → IsValid m → IsValid n
unfolding work
Step-IsValid {m = m} (enqueues ai id now paths reason _) v =
    enqueue-IsValid ai id now paths reason m v
Step-IsValid {m = m} (works e) v = work_at-IsValid m.worker e m v
Step-IsValid refuses v = record {
  positive = v.positive;
  queue_bounded = v.queue_bounded;
  balanced = v.balanced;
}
Step-IsValid (signals _) v = record {
  positive = v.positive;
  queue_bounded = v.queue_bounded;
  balanced = v.balanced;
}

-- However callers, the worker and a stop interleave, the queue of jobs stays within its bound, and
-- each job's counters add up: successes and failures to the processed paths, and so do the results
-- that are kept, at most the limit, and those that are cut off.
pub Reach-jobs-IsValid : (a b c d : ℕ) (m : Manager) → Reach (init a b c d) m → IsValid m
Reach-jobs-IsValid a b c d m here = init-IsValid a b c d
Reach-jobs-IsValid a b c d m (next {t = t} r step) =
    Step-IsValid step (Reach-jobs-IsValid a b c d t r)
