-- ===== src/ReindexQueue/Drain.antt =====
-- `stop` drains the queue: left alone, the worker ends with nothing pending, in a bounded number
-- of steps, whatever the indexer's calls do.
use vault_search_mcp.ReindexQueue.Invariant.{IsValid, enqueue_key-IsValid}
use vault_search_mcp.ReindexQueue.Steps.{Reach-IsValid}
use vault_search_mcp.ReindexQueue.Served.{runs, accepted, enqueue-served}
use vault_search_mcp.Prelude.{
  ℕ, Bool-cases, List, String, [], arith, false, if◌then◌else◌, inl, inr, length, length-append,
  none, refl, some, true, ◌*◌, ◌+◌, ◌-◌, ◌<◌, ◌==◌, ◌∷◌, ◌≡◌, ◌≤◌, nat_eq, string_eq, ◌&&◌, ◌∙◌, ap,
}
use vault_search_mcp.Dict.{Dict, lookup}
use vault_search_mcp.ReindexQueue.{
  ReindexQueue, Outcome, Worker, absent, at_loop, exited, finish, is_empty, observed, ran, take_key,
  taken, work, work_at, Reach, is_alive, next, works, enqueue_key, here,
}

-- The worker runs on by itself; each step takes the next outcome.
unfoldable pub drain : List Outcome → ReindexQueue → ReindexQueue
drain [] q = q
drain (o ∷ os) q = drain os (work o q)

-- A key in flight whose version has moved on goes round once more.
again : String → ℕ → Dict String ℕ → ℕ
again key v d = elim (lookup key d) [ none ↦ 0 | some c ↦ if c == v then 0 else 4 ]

phase : Worker → Dict String ℕ → ℕ
phase at_loop d = 1
phase (taken key) d = 4
phase (observed key v) d = 3 + again key v d
phase (ran key v) d = 2 + again key v d
phase _ d = 0

-- A bound on the steps that the worker may still make.
left : ReindexQueue → ℕ
left q = 4 * length q.queue + phase q.worker q.versions

again-le : (key : String) (v : ℕ) (d : Dict String ℕ) → again key v d ≤ 4
unfolding again
again-le key v d = ground arith

left-le : (q : ReindexQueue) → left q ≤ 4 * length q.queue + 7
unfolding left phase
left-le q = go q.worker
  where
    go : (w : Worker) → 4 * length q.queue + phase w q.versions ≤ 4 * length q.queue + 7
    go (observed k v) = omega (arith, again-le k v q.versions)
    go (ran k v) = omega (arith, again-le k v q.versions)
    go _ = omega arith

left-take_key :
    (q : ReindexQueue) (ks : List String)
    → q.queue ≡ ks
    → is_empty ks ≡ false
    → left (take_key ks q) < 4 * length ks + 1
unfolding left phase take_key is_empty
left-take_key q [] e h = cc
left-take_key q (k ∷ ks) e h = omega arith

left-work_at :
    (o : Outcome) (q : ReindexQueue) (w : Worker)
    → is_alive w ≡ true
    → q.stop ≡ true
    → left (work_at w o q) ≤ 4 * length q.queue + phase w q.versions - 1
unfolding left phase work_at again finish is_alive
left-work_at o q absent at s = cc
left-work_at o q exited at s = cc
left-work_at o q at_loop at s = elim (Bool-cases (is_empty q.queue)) [
  | inl t ↦ ground arith
  | inr f ↦ ground (arith, left-take_key q q.queue refl f)
]
left-work_at o q (taken key) at s = ground arith
left-work_at o q (observed key v) at s = ground arith
left-work_at o q (ran key v) at s = ground (arith, length-append q.queue (key ∷ []))

stop-work_at : (o : Outcome) (q : ReindexQueue) (w : Worker) → (work_at w o q).stop ≡ q.stop
unfolding work_at finish take_key
stop-work_at o q at_loop = go q.queue
  where
    go :
        (ks : List String)
        → (if q.stop && is_empty q.queue then record q { worker = exited } else take_key ks q).stop
          ≡ q.stop
    go [] = ground arith
    go (k ∷ ks) = ground arith
stop-work_at o q (taken key) = ground arith
stop-work_at o q (ran key v) = ground arith
stop-work_at o q _ = refl

work_at_dead :
    (o : Outcome) (q : ReindexQueue) (w : Worker) → is_alive w ≡ false → work_at w o q ≡ q
unfolding work_at is_alive
work_at_dead o q absent d = refl
work_at_dead o q exited d = refl
work_at_dead o q _ d = cc

left_of_live : (w : Worker) (d : Dict String ℕ) → is_alive w ≡ true → 0 < phase w d
unfolding phase is_alive
left_of_live absent d a = cc
left_of_live exited d a = cc
left_of_live _ d a = omega arith

drain_dead : (os : List Outcome) (q : ReindexQueue) → is_alive q.worker ≡ false → drain os q ≡ q
unfolding drain work
drain_dead [] q d = refl
drain_dead (o ∷ os) q d = rw (work_at_dead o q q.worker d) (drain_dead os q d)

drain-Reach :
    (os : List Outcome) {s : ReindexQueue} (q : ReindexQueue) → Reach s q → Reach s (drain os q)
unfolding drain
drain-Reach [] q r = r
drain-Reach (o ∷ os) q r = drain-Reach os (work o q) (next r (works o))

drain_ends :
    (os : List Outcome) (q : ReindexQueue)
    → q.stop ≡ true
    → left q ≤ length os
    → is_alive (drain os q).worker ≡ false
unfolding drain work left
drain_ends [] q s h = elim (Bool-cases (is_alive q.worker)) [
  | inr d ↦ d
  | inl a ↦ absurd (omega (arith, left_of_live q.worker q.versions a))
]
drain_ends (o ∷ os) q s h = elim (Bool-cases (is_alive q.worker)) [
  | inr d ↦ ap (λ r. is_alive r.worker) (drain_dead (o ∷ os) q d) ∙ d
  | inl a ↦
      drain_ends os (work_at q.worker o q) (stop-work_at o q q.worker ∙ s)
        (omega (arith, left-work_at o q q.worker a s))
]

-- After `stop`, whatever the indexer's calls do, the worker ends within four steps for each queued
-- key and seven more, and nothing is pending then.
pub drain_stops :
    (os : List Outcome) (q : ReindexQueue)
    → IsValid q
    → q.stop ≡ true
    → 4 * length q.queue + 7 ≤ length os
    → (is_alive (drain os q).worker ≡ false) × ((drain os q).versions ≡ [])
drain_stops os q v s h =
    let ended = drain_ends os q s (omega (arith, left-le q)) in
    (ended, (Reach-IsValid v (drain-Reach os q here)).served ended)

-- An accepted key is indexed again after it was accepted, also if the queue is stopped at any
-- later point: by the end of the drain the indexer has been called for it once more.
pub drain-served :
    (key : String) (q t : ReindexQueue) (os : List Outcome)
    → IsValid q
    → accepted (enqueue_key key q).1 ≡ true
    → Reach (enqueue_key key q).0 t
    → t.stop ≡ true
    → 4 * length t.queue + 7 ≤ length os
    → runs key q.calls < runs key (drain os t).calls
drain-served key q t os v a r s h = enqueue-served key q (drain os t) v a (drain-Reach os t r) (
    rw (drain_stops os t (Reach-IsValid (enqueue_key-IsValid key q v) r) s h).1
      (unfold lookup in refl))
