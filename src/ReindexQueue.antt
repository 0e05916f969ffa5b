-- ===== src/ReindexQueue.antt =====
-- `ReindexQueue` of src/vault_search/server/reindex_queue.py: the queue through which every
-- mutation reaches the index. Producers and the one worker thread interleave; an atomic step is a
-- block under `_lock` or one call of a thread-safe object. Times and join timeouts are left out.
pub mod Cases
pub mod Invariant
pub mod Steps
pub mod Served
pub mod Drain
use text.Mathlib.Text.{starts_with}
use vault_search_mcp.Prelude.{
  ℕ, Bool, List, String, [], false, if◌then◌else◌, leb, length, max, none, not, some, true, ◌&&◌,
  ◌++◌, ◌+◌, ◌==◌, ◌||◌, ◌∷◌, ◌≡◌, EqType, nat_eq, string_eq,
}
use vault_search_mcp.Dict.{Dict, insert, lookup, remove}

-- What `reindex_note` or `sync_check` did: it returned a result with this "status" (the empty
-- text where the result has none), or it raised. `cache_raised` is the same after
-- `invalidate_cache`.
pub data Outcome : Type 0 where
  returned : String → Outcome
  raised : Outcome
  cache_raised : String → Outcome

-- The calls that the worker makes, and its log lines.
pub data Call : Type 0 where
  sync_check : Call
  reindex_note : String → Call
  warn_status : String → Call
  warn_error : Call
  invalidate_cache : Call

-- The worker thread: not started, at the head of its loop, or at a point of the loop's body with
-- its local `key` and `observed_version`.
pub data Worker : Type 0 where
  absent at_loop exited : Worker
  taken : String → Worker
  observed ran : String → ℕ → Worker

pub data Status : Type 0 where
  stopped coalesced queue_full queued : Status

abbrev pub sync_key : String
sync_key = "\0sync"

-- `calls` is the trace of the calls, the newest first.
pub record ReindexQueue : Type 0 where
  pub max_pending : ℕ
  pub queue : List String
  pub versions : Dict String ℕ
  pub accepting : Bool
  pub stop : Bool
  pub worker : Worker
  pub calls : List Call

unfoldable pub init : ℕ → ReindexQueue
init max_pending = record {
  max_pending = max 1 max_pending;
  queue = [];
  versions = [];
  accepting = true;
  stop = false;
  worker = absent;
  calls = [];
}

unfoldable pub is_alive : Worker → Bool
is_alive absent = false
is_alive exited = false
is_alive _ = true

unfoldable pub ensure_worker_locked : ReindexQueue → ReindexQueue
unfolding is_alive
ensure_worker_locked q = if is_alive q.worker then q else record q { worker = at_loop }

unfoldable pub enqueue_key : String → ReindexQueue → ReindexQueue × Status
unfolding ensure_worker_locked
enqueue_key key q = if not q.accepting then (q, stopped) else elim (lookup key q.versions) [
  | some v ↦ (record q { versions = insert key (v + 1) q.versions }, coalesced)
  | none ↦ if leb q.max_pending (length q.versions) then (q, queue_full) else (
    ensure_worker_locked
        (record q { versions = insert key 1 q.versions; queue = q.queue ++ key ∷ [] }),
    queued,
  )
]

unfoldable pub enqueue : String → ReindexQueue → ReindexQueue × Status
unfolding enqueue_key
enqueue path q = enqueue_key path q

unfoldable pub enqueue_sync : ReindexQueue → ReindexQueue × Status
unfolding enqueue_key
enqueue_sync q = enqueue_key sync_key q

-- The calls of the `try` block for one key, the newest first.
unfoldable pub index_call : String → Call
index_call key = if key == sync_key then sync_check else reindex_note key

unfoldable pub status_warning : String → String → List Call
status_warning key status =
    if key == sync_key
    then []
    else if starts_with status "rejected" || starts_with status "error"
    then warn_status status ∷ []
    else []

unfoldable pub run_index : String → Outcome → List Call
unfolding index_call status_warning
run_index key (returned status) =
    invalidate_cache ∷ status_warning key status ++ index_call key ∷ []
run_index key raised = warn_error ∷ index_call key ∷ []
run_index key (cache_raised status) =
    warn_error ∷ invalidate_cache ∷ status_warning key status ++ index_call key ∷ []

-- The `finally` block.
unfoldable pub finish : String → ℕ → ReindexQueue → ReindexQueue
finish key observed_version q = elim (lookup key q.versions) [
  | none ↦ record q { worker = at_loop }
  | some current_version ↦
      if current_version == observed_version
      then record q { versions = remove key q.versions; worker = at_loop }
      else record q { queue = q.queue ++ key ∷ []; worker = at_loop }
]

unfoldable pub is_empty : List String → Bool
is_empty [] = true
is_empty (k ∷ ks) = false

-- The loop's test and `get`. An empty queue times out and the loop goes round.
unfoldable pub take_key : List String → ReindexQueue → ReindexQueue
take_key [] q = q
take_key (key ∷ rest) q = record q { queue = rest; worker = taken key }

unfoldable pub work_at : Worker → Outcome → ReindexQueue → ReindexQueue
unfolding take_key is_empty run_index finish
work_at absent o q = q
work_at exited o q = q
work_at at_loop o q =
    if q.stop && is_empty q.queue then record q { worker = exited } else take_key q.queue q
work_at (taken key) o q = elim (lookup key q.versions) [
  | none ↦ record q { worker = at_loop }
  | some v ↦ record q { worker = observed key v }
]
work_at (observed key v) o q = record q { calls = run_index key o ++ q.calls; worker = ran key v }
work_at (ran key v) o q = finish key v q

-- One atomic step of `_worker_loop`; the outcome is used where the step calls the indexer.
unfoldable pub work : Outcome → ReindexQueue → ReindexQueue
unfolding work_at
work o q = work_at q.worker o q

-- `stop` is two steps: it refuses new keys under the lock, and then sets the event.
unfoldable pub refuse : ReindexQueue → ReindexQueue
refuse q = record q { accepting = false }

unfoldable pub signal : ReindexQueue → ReindexQueue
signal q = record q { stop = true }

unfoldable pub pending_count : ReindexQueue → ℕ
pending_count q = length q.versions

-- What any thread may do next.
pub data Step (q : ReindexQueue) : ReindexQueue → Type 0 where
  enqueues : (key : String) → Step q (enqueue_key key q).0
  works : (o : Outcome) → Step q (work o q)
  refuses : Step q (refuse q)
  signals : q.accepting ≡ false → Step q (signal q)

pub data Reach (s : ReindexQueue) : ReindexQueue → Type 0 where
  here : Reach s s
  next : {t u : ReindexQueue} → Reach s t → Step t u → Reach s u
