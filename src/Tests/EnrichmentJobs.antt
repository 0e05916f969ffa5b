-- ===== src/Tests/EnrichmentJobs.antt =====
-- The enrichment jobs of src/vault_search/server/frontmatter_jobs.py, run on one job.
use vault_search_mcp.Prelude.Text.{is_md_end, ends_md}
use vault_search_mcp.Dict.{remove}
use vault_search_mcp.Prelude.{
  String, [], ◌∷◌, ◌≡◌, refl, none, some, true, nat_eq, string_eq, length, ◌≤◌,
}
use vault_search_mcp.Dict.{Dict, contains, lookup, insert, Distinct, remove}
use vault_search_mcp.EnrichmentJobs.{
  Manager, Job, init, enqueue, work, prune_terminal_jobs, WorkEvent, add_result, admit, begin,
  begin_job, complete, complete_job, completed_with_errors, enqueues, entry_of, fail, failed,
  get_status, here, insert_by_created, is_member, is_terminal, mark_job_failed, md_paths, new_job,
  next, proceeds, raised, remove_all, returned, run_path, sort_by_created, start_worker, take_job,
  terminal, update, work_at, works,
}
use vault_search_mcp.EnrichmentJobs.Counters.{IsValid}
use vault_search_mcp.EnrichmentJobs.Work.{Reach-jobs-IsValid}
use vault_search_mcp.EnrichmentJobs.History.{length-prune_terminal_jobs}
use vault_search_mcp.EnrichmentJobs.Pruning.{lookup-prune_terminal_jobs}

program : Unit {0}
unfolding init is_terminal is_member md_paths terminal insert_by_created sort_by_created remove_all
    prune_terminal_jobs new_job start_worker admit enqueue entry_of begin add_result complete fail
    update mark_job_failed take_job begin_job run_path complete_job work_at work is_md_end ends_md
    lookup insert remove
program = tt

abbrev start : Manager
start = init 1 2 1 1

-- Two paths and one that is no Markdown file.
abbrev queued_job : Manager
queued_job = (enqueue true "j1" 5 ("a.md" ∷ "b.pdf" ∷ "c.MD" ∷ "a.md" ∷ []) "manual" start).0

abbrev filled : WorkEvent
filled = proceeds 7 (returned true "done" true 2 none)

abbrev failing : WorkEvent
failing = proceeds 8 raised

abbrev ended : Manager
ended = work filled (work failing (work filled (work filled (work filled queued_job))))

-- One note was enriched and reindexed, the other failed; one result is kept.
ended_job :
    (get_status "j1" ended
      ≡ some (record {
        status = completed_with_errors;
        reason = "manual";
        created_at = 5;
        started_at = some 7;
        finished_at = some 7;
        total = 2;
        processed = 2;
        succeeded = 1;
        failures = 1;
        results = entry_of "a.md" (returned true "done" true 2 none) ∷ [];
        returned = 1;
        truncated = 1;
      }))
    × (ended.reindexed ≡ "a.md" ∷ [])
unfolding program get_status contains
ended_job = (refl, refl)

Reach-jobs-IsValid_example : IsValid ended
unfolding program
Reach-jobs-IsValid_example = Reach-jobs-IsValid 1 2 1 1 ended (
    next
      (next
        (next
          (next
            (next
              (next here
                (enqueues true "j1" 5 ("a.md" ∷ "b.pdf" ∷ "c.MD" ∷ "a.md" ∷ []) "manual" refl))
              (works filled))
            (works filled))
          (works filled))
        (works failing))
      (works filled))

abbrev waiting : Job
waiting = new_job "manual" 3 1

abbrev old_job : Job
old_job = record (new_job "manual" 1 1) { status = failed }

abbrev history : Dict String Job
history = ("j1", old_job) ∷ ("j2", record old_job { created_at = 2 }) ∷ ("j3", waiting) ∷ []

history-Distinct : Distinct history
unfolding lookup
history-Distinct = (refl, (refl, (refl, tt)))

lookup-prune_terminal_jobs_example : lookup "j3" (prune_terminal_jobs 1 history) ≡ some waiting
unfolding lookup is_terminal new_job
lookup-prune_terminal_jobs_example =
    lookup-prune_terminal_jobs "j3" waiting 1 history history-Distinct refl refl

length-prune_terminal_jobs_example : length (terminal (prune_terminal_jobs 1 history)) ≤ 1
length-prune_terminal_jobs_example = length-prune_terminal_jobs 1 history history-Distinct
