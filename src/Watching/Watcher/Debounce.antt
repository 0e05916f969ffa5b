-- ===== src/Watching/Watcher/Debounce.antt =====
-- The debounce window: nothing is lost, nothing is early, and errors stay with their event.
use text.Mathlib.TextEquality.{eq_iff}
use vault_search_mcp.Prelude.{
  ℕ, Bool, Option, String, [], arith, false, if◌then◌else◌, none, refl, some, true, leb, ◌+◌, ◌∷◌,
  ◌≡◌, nat_eq, string_eq, List, ap, ◌++◌,
}
use vault_search_mcp.Dict.{Dict, Distinct, lookup, keys}
use vault_search_mcp.Watching.Handler.{PendingEvent}
use vault_search_mcp.Watching.Watcher.{
  collect_ready, is_ready, Call, Outcome, after_catalog, catalog_call, process, process_all,
  reindex_note,
}

abbrev Pending : Type 0
Pending = Dict String PendingEvent

-- The event of a path, if at least the debounce window has passed since its time, and if not.
unfoldable pub when : Bool → Option PendingEvent → ℕ → ℕ → Option PendingEvent
when ready none debounce now = none
when ready (some event) debounce now =
    if leb (event.time + debounce) now
    then (if ready then some event else none)
    else (if ready then none else some event)

collect_absent :
    (debounce now : ℕ) (k : String) (d : Pending)
    → lookup k d ≡ none
    → (lookup k (collect_ready debounce now d).0 ≡ none)
      × (lookup k (collect_ready debounce now d).1 ≡ none)
unfolding collect_ready lookup
collect_absent debounce now k [] h = (refl, refl)
collect_absent debounce now k ((j, e) ∷ d) h = ground (arith, collect_absent debounce now k d)

-- Each poll takes exactly the events since whose time the window has passed and leaves exactly the others
-- pending, so an event is neither lost nor taken early.
pub collect_ready_lem :
    (debounce now : ℕ) (k : String) (d : Pending)
    → Distinct d
    → (lookup k (collect_ready debounce now d).0 ≡ when true (lookup k d) debounce now)
      × (lookup k (collect_ready debounce now d).1 ≡ when false (lookup k d) debounce now)
unfolding collect_ready lookup when is_ready
collect_ready_lem debounce now k [] h = (refl, refl)
collect_ready_lem debounce now k ((j, e) ∷ d) h =
    ground
      (arith, collect_ready_lem debounce now k d h.1, collect_absent debounce now k d, eq_iff j k)

-- The paths that the calls reindex, in order.
unfoldable pub reindexed : List Call → List String
reindexed [] = []
reindexed (reindex_note path ∷ calls) = path ∷ reindexed calls
reindexed (_ ∷ calls) = reindexed calls

reindexed-append : (xs ys : List Call) → reindexed (xs ++ ys) ≡ reindexed xs ++ reindexed ys
unfolding reindexed
reindexed-append [] ys = refl
reindexed-append (reindex_note path ∷ xs) ys = ap (◌∷◌ path) (reindexed-append xs ys)
reindexed-append (_ ∷ xs) ys = reindexed-append xs ys

reindexed-process :
    (o : Outcome) (path : String) (e : PendingEvent) → reindexed (process o path e) ≡ path ∷ []
unfolding reindexed process catalog_call after_catalog
reindexed-process o path e = ground arith

reindexed-nil : reindexed [] ≡ []
unfolding reindexed
reindexed-nil = refl

-- Every ready event is reindexed, once and in order, whichever of the calls raise.
pub reindexed-process_all :
    (outcome : String → Outcome) (ready : Pending)
    → reindexed (process_all outcome ready) ≡ keys ready
unfolding process_all
reindexed-process_all outcome [] = reindexed-nil
reindexed-process_all outcome ((path, e) ∷ ready) = cc (
  reindexed-append (process (outcome path) path e) (process_all outcome ready),
  reindexed-process (outcome path) path e,
  reindexed-process_all outcome ready,
)
