-- ===== src/EnrichmentJobs.antt =====
-- `FrontmatterEnrichmentJobManager` of src/vault_search/server/frontmatter_jobs.py. Each block
-- under `_lock` and each call of the queue is one step. The clock, the job ids of `uuid4` and the
-- results of the enrichment are arguments.
pub mod Counters
pub mod Work
pub mod Pruning
pub mod History
use vault_search_mcp.Prelude.{
  ℕ, Bool, List, Option, String, [], false, if◌then◌else◌, leb, length, ltb, max, none, not, some,
  take, true, ◌++◌, ◌+◌, ◌-◌, ◌==◌, ◌&&◌, ◌∷◌, nat_eq, string_eq, ◌≡◌,
}
use vault_search_mcp.Prelude.Text.{codes, ends_md}
use vault_search_mcp.Dict.{Dict, contains, insert, keys, lookup, remove}

pub data JobStatus : Type 0 where
  queued running completed completed_with_errors failed : JobStatus

-- _TERMINAL_STATUSES
unfoldable pub is_terminal : JobStatus → Bool
is_terminal queued = false
is_terminal running = false
is_terminal _ = true

pub record Entry : Type 0 where
  pub path : String
  pub success : Bool
  pub message : String
  pub frontmatter_enriched : Bool
  pub frontmatter_fields_filled : ℕ
  pub error_code : Option String

pub record Job : Type 0 where
  pub status : JobStatus
  pub reason : String
  pub created_at : ℕ
  pub started_at : Option ℕ
  pub finished_at : Option ℕ
  pub total : ℕ
  pub processed : ℕ
  pub succeeded : ℕ
  pub failures : ℕ
  pub results : List Entry
  pub returned : ℕ
  pub truncated : ℕ

-- The worker thread, with the local variables of its loop: the job that it took from the queue,
-- or the job that it runs and the paths that are left.
pub data Worker : Type 0 where
  absent at_loop exited : Worker
  taken working : String → List String → Worker

-- `reindexed` is the trace of the notes reindexed after an enrichment, the newest first.
pub record Manager : Type 0 where
  pub max_pending : ℕ
  pub max_paths_per_job : ℕ
  pub max_history : ℕ
  pub max_results : ℕ
  pub queue : List (String × List String)
  pub jobs : Dict String Job
  pub accepting : Bool
  pub stop : Bool
  pub worker : Worker
  pub reindexed : List String

unfoldable pub init : ℕ → ℕ → ℕ → ℕ → Manager
init max_pending max_paths_per_job max_history max_results = record {
  max_pending = max 1 max_pending;
  max_paths_per_job = max 1 max_paths_per_job;
  max_history = max 1 max_history;
  max_results = max 1 max_results;
  queue = [];
  jobs = [];
  accepting = true;
  stop = false;
  worker = absent;
  reindexed = [];
}

unfoldable pub is_member : String → List String → Bool
is_member x [] = false
is_member x (y ∷ ys) = if y == x then true else is_member x ys

-- `list(dict.fromkeys(path for path in paths if ...))`: the first of each, in order.
unfoldable pub md_paths : List String → List String → List String
unfolding ends_md is_member
md_paths seen [] = []
md_paths seen (path ∷ paths) =
    let rest = md_paths (path ∷ seen) paths in
    if ends_md (codes path)
    then (if is_member path seen then md_paths seen paths else path ∷ rest)
    else md_paths seen paths

unfoldable pub terminal : Dict String Job → Dict String Job
unfolding is_terminal
terminal [] = []
terminal ((id, job) ∷ jobs) =
    if is_terminal job.status then (id, job) ∷ terminal jobs else terminal jobs

-- `sorted(terminal, key=created_at)`, which is stable.
unfoldable pub insert_by_created : String → Job → Dict String Job → Dict String Job
insert_by_created id job [] = (id, job) ∷ []
insert_by_created id job ((i, j) ∷ jobs) =
    if ltb j.created_at job.created_at
    then (i, j) ∷ insert_by_created id job jobs
    else (id, job) ∷ (i, j) ∷ jobs

unfoldable pub sort_by_created : Dict String Job → Dict String Job
unfolding insert_by_created
sort_by_created [] = []
sort_by_created ((id, job) ∷ jobs) = insert_by_created id job (sort_by_created jobs)

unfoldable pub remove_all : List String → Dict String Job → Dict String Job
remove_all [] jobs = jobs
remove_all (id ∷ ids) jobs = remove_all ids (remove id jobs)

unfoldable pub prune_terminal_jobs : ℕ → Dict String Job → Dict String Job
unfolding terminal sort_by_created remove_all
prune_terminal_jobs max_history jobs =
    let finished = terminal jobs in
    if leb (length finished) max_history
    then jobs
    else remove_all (keys (take (length finished - max_history) (sort_by_created finished))) jobs

pub data EnqueueResult : Type 0 where
  no_valid_path too_many_paths disabled stopped queue_full : EnqueueResult
  accepted : String → ℕ → EnqueueResult

unfoldable pub new_job : String → ℕ → ℕ → Job
new_job reason now total = record {
  status = queued;
  reason = reason;
  created_at = now;
  started_at = none;
  finished_at = none;
  total = total;
  processed = 0;
  succeeded = 0;
  failures = 0;
  results = [];
  returned = 0;
  truncated = 0;
}

-- `_ensure_worker_locked`
unfoldable pub start_worker : Worker → Worker
start_worker absent = at_loop
start_worker exited = at_loop
start_worker w = w

-- The block under the lock; a full queue raises `queue.Full`.
unfoldable pub admit : String → ℕ → String → List String → Manager → Manager × EnqueueResult
unfolding new_job prune_terminal_jobs start_worker
admit job_id now reason paths m =
    if not m.accepting
    then (m, stopped)
    else if leb m.max_pending (length m.queue)
    then (m, queue_full)
    else (
      record m {
        queue = m.queue ++ (job_id, paths) ∷ [];
        jobs =
            prune_terminal_jobs m.max_history
              (insert job_id (new_job reason now (length paths)) m.jobs);
        worker = start_worker m.worker;
      },
      accepted job_id (length paths),
    )

unfoldable pub enqueue :
    Bool → String → ℕ → List String → String → Manager → Manager × EnqueueResult
unfolding md_paths admit
enqueue ai_enabled job_id now paths reason m =
    let valid = md_paths [] paths in
    if leb (length valid) 0
    then (m, no_valid_path)
    else if ltb m.max_paths_per_job (length valid)
    then (m, too_many_paths)
    else if not ai_enabled
    then (m, disabled)
    else admit job_id now reason valid m

-- What `enrich_note_frontmatter_required` did: it returned a result, or it raised.
pub data Enrichment : Type 0 where
  returned : Bool → String → Bool → ℕ → Option String → Enrichment
  raised : Enrichment

unfoldable pub entry_of : String → Enrichment → Entry
entry_of path (returned success message enriched filled code) = record {
  path = path;
  success = success;
  message = message;
  frontmatter_enriched = enriched;
  frontmatter_fields_filled = filled;
  error_code = code;
}
entry_of path raised = record {
  path = path;
  success = false;
  message = "Internal enrichment failure";
  frontmatter_enriched = false;
  frontmatter_fields_filled = 0;
  error_code = some "internal_error";
}

unfoldable pub begin : ℕ → Job → Job
begin now job = record job { status = running; started_at = some now }

unfoldable pub add_result : ℕ → Entry → Job → Job
add_result max_results entry job =
    let room = ltb (length job.results) max_results in
    record job {
      processed = job.processed + 1;
      succeeded = if entry.success then job.succeeded + 1 else job.succeeded;
      failures = if entry.success then job.failures else job.failures + 1;
      results = if room then job.results ++ entry ∷ [] else job.results;
      returned = if room then job.returned + 1 else job.returned;
      truncated = if room then job.truncated else job.truncated + 1;
    }

unfoldable pub complete : ℕ → Job → Job
complete now job = record job {
  finished_at = some now;
  status = if ltb 0 job.failures then completed_with_errors else completed;
}

unfoldable pub fail : ℕ → Job → Job
fail now job = record job { status = failed; finished_at = some now }

-- `job = self._jobs.get(job_id)`, and an update of the job if there is one.
unfoldable pub update : String → (Job → Job) → Dict String Job → Dict String Job
update id f jobs = elim (lookup id jobs) [ none ↦ jobs | some job ↦ insert id (f job) jobs ]

-- A job that is not known, or has ended, is left alone.
unfoldable pub mark_job_failed : String → ℕ → Manager → Manager
unfolding fail is_terminal prune_terminal_jobs
mark_job_failed id now m = elim (lookup id m.jobs) [
  | none ↦ m
  | some job ↦
      if is_terminal job.status
      then m
      else record m { jobs = prune_terminal_jobs m.max_history (insert id (fail now job) m.jobs) }
]

-- The loop's test and `get`.
unfoldable pub take_job : List (String × List String) → Manager → Manager
take_job [] m = if m.stop then record m { worker = exited } else m
take_job ((id, paths) ∷ queue) m = record m { queue = queue; worker = taken id paths }

-- The first block of `_run_job`.
unfoldable pub begin_job : String → List String → ℕ → Manager → Manager
unfolding begin
begin_job id paths now m = elim (lookup id m.jobs) [
  | none ↦ record m { worker = at_loop }
  | some job ↦ record m { jobs = insert id (begin now job) m.jobs; worker = working id paths }
]

-- One path: its entry is counted, and the note is reindexed if it was enriched; nothing is done if
-- the job is gone.
unfoldable pub run_path : String → String → List String → Entry → Manager → Manager
unfolding update add_result
run_path id path paths entry m = record m {
  jobs = update id (add_result m.max_results entry) m.jobs;
  worker = working id paths;
  reindexed =
      if contains id m.jobs && entry.frontmatter_enriched then path ∷ m.reindexed else m.reindexed;
}

-- The last block of `_run_job`.
unfoldable pub complete_job : String → ℕ → Manager → Manager
unfolding complete prune_terminal_jobs
complete_job id now m = elim (lookup id m.jobs) [
  | none ↦ record m { worker = at_loop }
  | some job ↦ record m {
    jobs = prune_terminal_jobs m.max_history (insert id (complete now job) m.jobs);
    worker = at_loop;
  }
]

-- One step of the worker. `crashed` is an exception that leaves `_run_job`.
pub data WorkEvent : Type 0 where
  proceeds : ℕ → Enrichment → WorkEvent
  crashed : ℕ → WorkEvent

unfoldable pub work_at : Worker → WorkEvent → Manager → Manager
unfolding take_job begin_job run_path complete_job mark_job_failed entry_of
work_at absent e m = m
work_at exited e m = m
work_at at_loop e m = take_job m.queue m
work_at (taken id paths) (proceeds now o) m = begin_job id paths now m
work_at (taken id paths) (crashed now) m = begin_job id paths now m
work_at (working id paths) (crashed now) m = record (mark_job_failed id now m) { worker = at_loop }
work_at (working id []) (proceeds now o) m = complete_job id now m
work_at (working id (path ∷ paths)) (proceeds now o) m = run_path id path paths (entry_of path o) m

unfoldable pub work : WorkEvent → Manager → Manager
unfolding work_at
work e m = work_at m.worker e m

-- `get_status` of one job.
unfoldable pub get_status : String → Manager → Option Job
get_status id m = lookup id m.jobs

-- What any thread may do next. The ids of `uuid4` are new.
pub data Step (m : Manager) : Manager → Type 0 where
  enqueues :
      (ai_enabled : Bool) (id : String) (now : ℕ) (paths : List String) (reason : String)
      → lookup id m.jobs ≡ none
      → Step m (enqueue ai_enabled id now paths reason m).0
  works : (e : WorkEvent) → Step m (work e m)
  refuses : Step m (record m { accepting = false })
  signals : m.accepting ≡ false → Step m (record m { stop = true })

pub data Reach (s : Manager) : Manager → Type 0 where
  here : Reach s s
  next : {t u : Manager} → Reach s t → Step t u → Reach s u
