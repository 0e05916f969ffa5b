-- ===== src/Watching/Watcher/Lifecycle.antt =====
-- `start` and `stop` of the watcher: one generation of threads at a time.
use vault_search_mcp.Prelude.{Bool, [], arith, false, not, true, ◌&&◌, ◌||◌, ◌≡◌}
use vault_search_mcp.Watching.Watcher.{
  VaultWatcher, Launch, Root, directory, failed, if_alive, is_alive, is_running, join, launch,
  launched, missing, not_a_directory, rejected, start, start_at, started, stop, Started,
}

-- A start that reports success came from a watcher that was not running, and leaves it running,
-- with nothing pending and the stop event cleared.
start_succeeds :
    (root : Root) (l : Launch) (w : VaultWatcher)
    → (start root l w).1 ≡ started
    → (is_running w ≡ false)
      × (is_running (start root l w).0 ≡ true)
      × ((start root l w).0.pending ≡ [])
      × ((start root l w).0.stop_event ≡ false)
unfolding start start_at launch is_running is_alive if_alive
start_succeeds missing l w h = ground arith
start_succeeds not_a_directory l w h = ground arith
start_succeeds directory launched w h = ground arith
start_succeeds directory (failed a b) w h = ground arith

abbrev pub is_rejected : Started → Bool
is_rejected rejected = true
is_rejected _ = false

-- `stop` reports success exactly if no thread lives afterwards.
pub stop-is_running :
    (a b : Bool) (w : VaultWatcher) → (stop a b w).1 ≡ not (is_running (stop a b w).0)
unfolding stop join is_running is_alive if_alive
stop-is_running a b w = ground arith

-- Whether a thread of the earlier generation lives on through the stop and the time that follows.
unfoldable pub is_left : Bool → Bool → Bool → Bool → VaultWatcher → Bool
unfolding is_alive
is_left observer_stays worker_stays observer_later worker_later w =
    (is_alive w.observer && observer_stays && observer_later)
    || (is_alive w.worker && worker_stays && worker_later)
