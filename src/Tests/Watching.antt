-- ===== src/Tests/Watching.antt =====
-- The watcher of src/vault_search/watching, run on one note.
use vault_search_mcp.Prelude.{
  [], ◌∷◌, ◌≡◌, refl, arith, none, some, String, false, not, true, if◌then◌else◌, ◌==◌, ◌⊎◌, nat_eq,
  string_eq,
}
use vault_search_mcp.Dict.{Dict, lookup, Distinct}
use vault_search_mcp.Watching.Ignore.{
  Vault, FileRevision, ignore_next_change, check_and_clear_ignore, file_revision, or_vault_file,
  revision_of, vault_file,
}
use vault_search_mcp.Watching.Ignore.Tokens.{IsBounded, ignore-IsBounded, check-ignore_next_change}
use vault_search_mcp.Watching.Handler.{Filter, Paths, State, PendingEvent, enqueue_if}
use vault_search_mcp.Watching.Handler.Enqueue.{Noticed, enqueue_if_lem}
use vault_search_mcp.Watching.Watcher.{
  collect_ready, process_all, VaultWatcher, stop, Outcome, is_running,
}
use vault_search_mcp.Watching.Watcher.Debounce.{
  collect_ready_lem, reindexed-process_all, reindexed, when,
}
use vault_search_mcp.Watching.Watcher.Lifecycle.{stop-is_running}

abbrev written : FileRevision
written = record { inode = 3; mtime_ns = 100; size = 12 }

abbrev vault : Vault
vault = record {
  is_absolute = λ p. false;
  resolve = λ p. p;
  is_inside = λ p. true;
  stat = λ p. some written;
}

none-IsBounded : IsBounded []
none-IsBounded = record { distinct = tt; bounded = omega arith }

ignore-IsBounded_example :
    IsBounded (ignore_next_change vault 5 "a.md" []).0
    × IsBounded (check_and_clear_ignore vault 5 "a.md" none []).0
ignore-IsBounded_example = ignore-IsBounded vault 5 "a.md" none [] none-IsBounded

check-ignore_next_change_example :
    let marked = ignore_next_change vault 5 "a.md" [] in
    let first = check_and_clear_ignore vault 9 "a.md" none marked.0 in
    (marked.1 ≡ true)
    × (first.1 ≡ true)
    × ((check_and_clear_ignore vault 9 "a.md" none first.0).1 ≡ false)
unfolding revision_of vault_file file_revision or_vault_file
check-ignore_next_change_example =
    check-ignore_next_change vault vault 5 9 9 "a.md" none written written [] none-IsBounded refl
      refl

abbrev filter : Filter
filter = record { extensions = ".md" ∷ []; ignored_folders = ".trash" ∷ [] }

abbrev paths : Paths
paths = record {
  suffix_lower = λ p. ".md";
  parts = λ p. p ∷ [];
  resolved = λ p. p;
  relative = λ p. some p;
}

abbrev idle : State
idle = record { tokens = []; pending = [] }

enqueue_if_lem_example :
    ((relative : String) × Noticed filter paths false vault 5 "a.md" relative idle
      × ((j : String)
          → lookup j (enqueue_if filter paths false vault 5 6 "a.md" true idle).pending
            ≡ (if relative == j then some (record { deleted = true; time = 6 }) else none)))
    ⊎ (((relative : String) → ¬ Noticed filter paths false vault 5 "a.md" relative idle)
        × ((enqueue_if filter paths false vault 5 6 "a.md" true idle).pending ≡ []))
unfolding lookup
enqueue_if_lem_example = enqueue_if_lem filter paths false vault 5 6 "a.md" true idle

abbrev pending : Dict String PendingEvent
pending =
    ("a.md", record { deleted = false; time = 1 })
    ∷ ("b.md", record { deleted = true; time = 8 })
    ∷ []

pending-Distinct : Distinct pending
unfolding lookup
pending-Distinct = (refl, (refl, tt))

collect_ready_lem_example :
    (lookup "b.md" (collect_ready 3 9 pending).0 ≡ none)
    × (lookup "b.md" (collect_ready 3 9 pending).1 ≡ some (record { deleted = true; time = 8 }))
unfolding lookup when
collect_ready_lem_example = collect_ready_lem 3 9 "b.md" pending pending-Distinct

abbrev failing : Outcome
failing = record {
  reindex_raises = true;
  catalog_raises = false;
  has_callback = true;
  callback_raises = false;
}

reindexed-process_all_example :
    reindexed (process_all (λ p. failing) pending) ≡ "a.md" ∷ "b.md" ∷ []
reindexed-process_all_example = reindexed-process_all (λ p. failing) pending

abbrev running : VaultWatcher
running = record { observer = some true; worker = some true; stop_event = false; pending = pending }

stop-is_running_example : (stop false true running).1 ≡ not (is_running (stop false true running).0)
stop-is_running_example = stop-is_running false true running
