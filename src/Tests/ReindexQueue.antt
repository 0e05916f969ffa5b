-- ===== src/Tests/ReindexQueue.antt =====
-- The reindex queue of src/vault_search/server/reindex_queue.py, run on a note.
use text.Mathlib.Text.{starts_with}
use vault_search_mcp.Dict.{lookup, insert, remove}
use vault_search_mcp.Prelude.{List, [], ◌∷◌, ◌≡◌, refl, false, arith, ◌<◌, nat_eq, string_eq}
use vault_search_mcp.ReindexQueue.{
  ReindexQueue, Outcome, Reach, init, enqueue_key, enqueues, ensure_worker_locked, finish, here,
  index_call, is_alive, is_empty, next, raised, refuse, refuses, reindex_note, run_index, signal,
  signals, status_warning, take_key, warn_error, work, work_at, works,
}
use vault_search_mcp.ReindexQueue.Invariant.{IsValid}
use vault_search_mcp.ReindexQueue.Steps.{Reach-init-IsValid, Reach-IsValid}
use vault_search_mcp.ReindexQueue.Served.{enqueue-served, accepted, runs}
use vault_search_mcp.ReindexQueue.Drain.{drain_stops, drain-served, drain}

program : Unit {0}
unfolding init is_alive ensure_worker_locked enqueue_key finish is_empty take_key work_at work
    refuse signal run_index index_call status_warning starts_with runs accepted drain lookup insert
    remove
program = tt

-- One note is queued.
abbrev one : ReindexQueue
one = (enqueue_key "a.md" (init 2)).0

-- The note changes again while it is being indexed.
abbrev changed : ReindexQueue
changed = (enqueue_key "a.md" (work raised (work raised (work raised one)))).0

abbrev changed-Reach : Reach (init 2) changed
changed-Reach =
    next
      (next (next (next (next here (enqueues "a.md")) (works raised)) (works raised))
        (works raised))
      (enqueues "a.md")

abbrev changed-IsValid : IsValid changed
changed-IsValid = Reach-init-IsValid 2 changed changed-Reach

abbrev ending : ReindexQueue
ending = signal (refuse changed)

abbrev ending-Reach : Reach changed ending
unfolding init is_alive ensure_worker_locked enqueue_key take_key work_at work refuse signal lookup
    insert
ending-Reach = next (next here refuses) (signals refl)

abbrev outcomes : List Outcome
outcomes =
    raised ∷ raised ∷ raised ∷ raised ∷ raised ∷ raised ∷ raised ∷ raised ∷ raised ∷ raised ∷ raised
    ∷ []

-- The second change is coalesced, and leads to a second run.
two_runs :
    (changed.calls ≡ warn_error ∷ reindex_note "a.md" ∷ [])
    × (runs "a.md" (drain outcomes ending).calls ≡ 2)
unfolding program
two_runs = (refl, refl)

Reach-init-IsValid_example : IsValid changed
Reach-init-IsValid_example = Reach-init-IsValid 2 changed changed-Reach

abbrev indexed : ReindexQueue
indexed = work raised (work raised (work raised (work raised one)))

abbrev indexed-Reach : Reach one indexed
indexed-Reach =
    next (next (next (next here (works raised)) (works raised)) (works raised)) (works raised)

enqueue-served_example : runs "a.md" (init 2).calls < runs "a.md" indexed.calls
unfolding program
enqueue-served_example =
    enqueue-served "a.md" (init 2) indexed (Reach-init-IsValid 2 (init 2) here) refl indexed-Reach
      refl

drain_stops_example :
    (is_alive (drain outcomes ending).worker ≡ false) × ((drain outcomes ending).versions ≡ [])
unfolding program
drain_stops_example =
    drain_stops outcomes ending (Reach-IsValid changed-IsValid ending-Reach) refl (omega arith)

drain-served_example :
    runs "a.md" (init 2).calls < runs "a.md" (drain outcomes (signal (refuse one))).calls
unfolding program
drain-served_example =
    drain-served "a.md" (init 2) (signal (refuse one)) outcomes (Reach-init-IsValid 2 (init 2) here)
      refl (next (next here refuses) (signals refl)) refl (omega arith)
