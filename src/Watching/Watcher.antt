-- ===== src/Watching/Watcher.antt =====
-- `VaultWatcher` of src/vault_search/watching/watcher.py: the worker that waits out the debounce
-- window, and the lifecycle of its two threads.
pub mod Debounce
pub mod Lifecycle
use vault_search_mcp.Prelude.{
  ℕ, Bool, List, Option, String, [], false, if◌then◌else◌, leb, none, not, some, true, ◌&&◌, ◌++◌,
  ◌-◌, ◌||◌, ◌∷◌, ◌+◌,
}
use vault_search_mcp.Dict.{Dict}
use vault_search_mcp.Watching.Handler.{PendingEvent, deleted}

-- `now - v["time"] >= WATCHER_DEBOUNCE`, where an event may be newer than `now`.
unfoldable pub is_ready : ℕ → ℕ → PendingEvent → Bool
is_ready debounce now event = leb (event.time + debounce) now

-- `expired_keys` and the loop that pops them: the pending events by whether they are ready.
unfoldable pub collect_ready :
    ℕ → ℕ → Dict String PendingEvent → Dict String PendingEvent × Dict String PendingEvent
unfolding is_ready
collect_ready debounce now [] = ([], [])
collect_ready debounce now ((path, event) ∷ pending) =
    let (ready, rest) = collect_ready debounce now pending in
    if is_ready debounce now event
    then ((path, event) ∷ ready, rest)
    else (ready, (path, event) ∷ rest)

-- The calls that the worker makes for one event, and its log lines.
pub data Call : Type 0 where
  reindex_note catalog_delete catalog_upsert : String → Call
  on_reindex catalog_warning reindex_error : Call

-- Which of the calls raise: the reindex, the catalog update and the callback; whether there is a
-- callback at all.
pub record Outcome : Type 0 where
  pub reindex_raises : Bool
  pub catalog_raises : Bool
  pub has_callback : Bool
  pub callback_raises : Bool

unfoldable pub catalog_call : String → PendingEvent → Call
catalog_call path event = if event.deleted then catalog_delete path else catalog_upsert path

unfoldable pub after_catalog : Outcome → List Call
after_catalog o =
    if o.has_callback
    then on_reindex ∷ (if o.callback_raises then reindex_error ∷ [] else [])
    else []

unfoldable pub process : Outcome → String → PendingEvent → List Call
unfolding catalog_call after_catalog
process o path event =
    reindex_note path
    ∷ (if o.reindex_raises
        then reindex_error ∷ []
        else catalog_call path event
          ∷ (if o.catalog_raises then catalog_warning ∷ after_catalog o else after_catalog o))

-- The loop over the ready events; an error ends only its own event.
unfoldable pub process_all : (String → Outcome) → Dict String PendingEvent → List Call
unfolding process
process_all outcome [] = []
process_all outcome ((path, event) ∷ ready) =
    process (outcome path) path event ++ process_all outcome ready

-- A thread that is referred to, and whether it is alive.
unfoldable pub is_alive : Option Bool → Bool
is_alive none = false
is_alive (some alive) = alive

pub record VaultWatcher : Type 0 where
  pub observer : Option Bool
  pub worker : Option Bool
  pub stop_event : Bool
  pub pending : Dict String PendingEvent

unfoldable pub is_running : VaultWatcher → Bool
unfolding is_alive
is_running w = is_alive w.observer || is_alive w.worker

-- The root of the vault as `start` finds it, and what starting the threads does: both start, or a
-- start raises and, after the joins, the threads are or are not alive.
pub data Root : Type 0 where
  missing not_a_directory directory : Root

pub data Launch : Type 0 where
  launched : Launch
  failed : Bool → Bool → Launch

pub data Started : Type 0 where
  started rejected not_found not_directory start_raised : Started

-- The reference that is kept is that of a thread that lives.
unfoldable pub if_alive : Bool → Option Bool
if_alive true = some true
if_alive false = none

unfoldable pub launch : Launch → VaultWatcher → VaultWatcher × Started
unfolding if_alive
launch launched w =
    (record w { observer = some true; worker = some true; stop_event = false }, started)
launch (failed observer_alive worker_alive) w = (
  record w {
    observer = if_alive observer_alive;
    worker = if_alive worker_alive;
    stop_event = true;
  },
  start_raised,
)

unfoldable pub start_at : Root → Launch → VaultWatcher → VaultWatcher × Started
unfolding launch
start_at missing l w = (w, not_found)
start_at not_a_directory l w = (w, not_directory)
start_at directory l w = launch l w

unfoldable pub start : Root → Launch → VaultWatcher → VaultWatcher × Started
unfolding is_running start_at
start root l w =
    if is_running w
    then (w, rejected)
    else start_at root l (record w { observer = none; worker = none; pending = [] })

-- A thread after some time: it may have ended.
unfoldable pub outlives : Bool → Option Bool → Option Bool
outlives survives none = none
outlives survives (some alive) = some (alive && survives)

-- Time passes between two calls, in which each of the threads may end.
unfoldable pub pass : Bool → Bool → VaultWatcher → VaultWatcher
unfolding outlives
pass observer_survives worker_survives w = record w {
  observer = outlives observer_survives w.observer;
  worker = outlives worker_survives w.worker;
}

-- A thread after a join: still alive only if it was and the deadline passed.
unfoldable pub join : Bool → Option Bool → Bool
unfolding is_alive
join survives thread = is_alive thread && survives

unfoldable pub stop : Bool → Bool → VaultWatcher → VaultWatcher × Bool
unfolding join if_alive
stop observer_survives worker_survives w =
    let observer_alive = join observer_survives w.observer in
    let worker_alive = join worker_survives w.worker in
    let stopped = not observer_alive && not worker_alive in
    (
      record {
        observer = if_alive observer_alive;
        worker = if_alive worker_alive;
        stop_event = true;
        pending = if stopped then [] else w.pending;
      },
      stopped,
    )
