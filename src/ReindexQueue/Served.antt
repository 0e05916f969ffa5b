-- ===== src/ReindexQueue/Served.antt =====
-- No update is lost: a key that was accepted stays pending until the indexer has been called for
-- it again, also where the change came while an older run of the same key was on its way.
use text.Mathlib.TextEquality.{eq_iff}
use vault_search_mcp.Prelude.{
  ℕ, Bool, List, String, [], arith, false, if◌then◌else◌, some, suc, true, ◌++◌, ◌+◌, ◌<◌, ◌==◌,
  ◌∷◌, ◌≡◌, ◌≤◌, ◌⊎◌, nat_eq, string_eq, Bool-cases, Option-cases, inl, inr, refl, none, ◌&&◌,
}
use vault_search_mcp.Dict.{Dict, lookup, insert, remove}
use vault_search_mcp.Dict.Laws.{lookup-insert, lookup-remove}
use vault_search_mcp.ReindexQueue.{
  ReindexQueue, Call, Outcome, Status, Worker, cache_raised, coalesced, enqueue_key, queued, raised,
  ran, refuses, reindex_note, returned, run_index, sync_check, sync_key, finish, Reach, Step,
  absent, at_loop, enqueues, exited, here, next, observed, refuse, signal, signals, take_key, taken,
  work, work_at, works, is_empty,
}
use vault_search_mcp.ReindexQueue.Cases.{
  Started, admits, begins, coalesces, enqueue_key-cases, full, lives, turns_away,
}
use vault_search_mcp.ReindexQueue.Invariant.{IsValid, NotNewer, InFlight}

-- The indexer calls for a key in a trace.
is_call : String → Call → Bool
is_call key sync_check = sync_key == key
is_call key (reindex_note path) = path == key
is_call key _ = false

unfoldable pub runs : String → List Call → ℕ
unfolding is_call
runs key [] = 0
runs key (c ∷ cs) = if is_call key c then suc (runs key cs) else runs key cs

unfoldable pub accepted : Status → Bool
accepted queued = true
accepted coalesced = true
accepted _ = false

-- A finished run of the key by the worker was of an older version.
abbrev Stale : String → ℕ → Worker → Type 0
Stale key m (ran k v) = k ≡ key → v < m
Stale key m _ = Unit

Waiting : String → ReindexQueue → Type 0
Waiting key q = (m : ℕ) × (lookup key q.versions ≡ some m) × Stale key m q.worker

-- Since the trace had `base` runs of the key, it ran again, or it waits for one.
Due : String → ℕ → ReindexQueue → Type 0
Due key base q = (base < runs key q.calls) ⊎ ((base ≤ runs key q.calls) × Waiting key q)

runs-append : (key : String) (xs ys : List Call) → runs key (xs ++ ys) ≡ runs key xs + runs key ys
unfolding runs
runs-append key [] ys = omega arith
runs-append key (c ∷ xs) ys = ground (arith, runs-append key xs ys)

runs-run_index : (key k : String) (o : Outcome) → k ≡ key → 0 < runs key (run_index k o)
unfolding runs run_index
runs-run_index key k (returned s) e =
    ground (arith, eq_iff k key, eq_iff k sync_key, eq_iff sync_key key)
runs-run_index key k raised e = ground (arith, eq_iff k key, eq_iff k sync_key, eq_iff sync_key key)
runs-run_index key k (cache_raised s) e =
    ground (arith, eq_iff k key, eq_iff k sync_key, eq_iff sync_key key)

Stale-suc : (key : String) (m n : ℕ) (w : Worker) → m ≤ n → Stale key m w → Stale key n w
Stale-suc key m n (ran k v) h s = λ e. omega (arith, s e)
Stale-suc key m n _ h s = tt

Stale-Started : {v w : Worker} (key : String) (m : ℕ) → Started v w → Stale key m v → Stale key m w
Stale-Started key m (lives a e) s = rw e s
Stale-Started key m (begins a e) s = rw e tt

Waiting-insert :
    (key k : String) (m n : ℕ) (d : Dict String ℕ) (w : Worker)
    → lookup key d ≡ some m
    → Stale key m w
    → NotNewer (lookup k d) n
    → (m' : ℕ) × (lookup key (insert k n d) ≡ some m') × Stale key m' w
Waiting-insert key k m n d w found s le = elim (Bool-cases (k == key)) [
  | inl t ↦ (
    n,
    ground (arith, lookup-insert k key n d),
    Stale-suc key m n w (ground (arith, eq_iff k key, le, found)) s,
  )
  | inr f ↦ (m, ground (arith, lookup-insert k key n d), s)
]

Stale-coalesced :
    (key : String) (c : ℕ) (d : Dict String ℕ) (w : Worker)
    → lookup key d ≡ some c
    → InFlight w d
    → Stale key (c + 1) w
Stale-coalesced key c d (ran k v) e h = λ same. ground (arith, h, e)
Stale-coalesced key c d _ e h = tt

Stale-unknown :
    (key : String) (d : Dict String ℕ) (w : Worker)
    → lookup key d ≡ none
    → InFlight w d
    → Stale key 0 w
Stale-unknown key d (ran k v) e h = λ same. absurd (ground (arith, h, e))
Stale-unknown key d _ e h = tt

module _ (key : String) (base : ℕ) where
  Due-waiting :
      (q : ReindexQueue) {P : Type 0}
      → ((m : ℕ) → lookup key q.versions ≡ some m → Stale key m q.worker → P)
      → Due key base q
      → (base < runs key q.calls) ⊎ ((base ≤ runs key q.calls) × P)
  unfolding Due Waiting
  Due-waiting q f (inl h) = inl h
  Due-waiting q f (inr (h, (m, found, s))) = inr (h, f m found s)

  Due-enqueue_key :
      (k : String) (q : ReindexQueue) → Due key base q → Due key base (enqueue_key k q).0
  unfolding Due Waiting
  Due-enqueue_key k q d = elim (enqueue_key-cases k q) [
    | turns_away _ e ↦ rw e d
    | full _ _ _ e ↦ rw e d
    | coalesces c _ found e ↦ rw e (
        Due-waiting q
          (λ m at s.
            Waiting-insert key k m (c + 1) q.versions q.worker at s (rw found (omega arith)))
          d)
    | admits w _ unknown room kept e ↦ rw e (
        Due-waiting q
          (λ m at s.
            Waiting-insert key k m 1 q.versions w at (Stale-Started key m kept s) (rw unknown tt))
          d)
  ]

  Due-finish :
      (k : String) (v : ℕ) (q : ReindexQueue)
      → q.worker ≡ ran k v
      → Due key base q
      → Due key base (finish k v q)
  unfolding Due Waiting finish
  Due-finish k v q at d = elim (Option-cases (lookup k q.versions)) [
    | inl e ↦ rw (e, finish) (Due-waiting q (λ m found s. (m, found, tt)) d)
    | inr (c, e) ↦ elim (Bool-cases (c == v)) [
      | inl t ↦
          rw (e, finish, t)
            (Due-waiting q (λ m found s. kept c e (ground arith) m found (rw at at s)) d)
      | inr f ↦ rw (e, finish, f) (Due-waiting q (λ m found s. (m, found, tt)) d)
    ]
  ]
    where
      kept :
          (c : ℕ)
          → lookup k q.versions ≡ some c
          → c ≡ v
          → (m : ℕ) → lookup key q.versions ≡ some m
          → (k ≡ key → v < m)
          → (m' : ℕ) × (lookup key (remove k q.versions) ≡ some m') × Unit {0}
      kept c e t m found s = elim (Bool-cases (k == key)) [
        | inl same ↦ absurd (ground (arith, s ((eq_iff k key).0 same), eq_iff k key))
        | inr f ↦ (m, ground (arith, lookup-remove k key q.versions), tt)
      ]

  Due-run :
      (k : String) (v : ℕ) (o : Outcome) (q : ReindexQueue)
      → Due key base q
      → Due key base (record q { calls = run_index k o ++ q.calls; worker = ran k v })
  unfolding Due Waiting
  Due-run k v o q d = elim (Bool-cases (k == key)) [
    | inl t ↦ inl (
        ground (
          arith,
          runs-append key (run_index k o) q.calls,
          runs-run_index key k o ((eq_iff k key).0 t),
          d,
        ))
    | inr f ↦ elim d [
      | inl h ↦ inl (ground (arith, runs-append key (run_index k o) q.calls))
      | inr (h, (m, found, s)) ↦ inr (
        ground (arith, runs-append key (run_index k o) q.calls),
        (m, found, λ same. absurd (ground (arith, eq_iff k key))),
      )
    ]
  ]

  -- A step that moves the worker, with no run behind it.
  Due-move :
      (q : ReindexQueue) (w : Worker) (ks : List String)
      → ((m : ℕ) → Stale key m w)
      → Due key base q
      → Due key base (record q { worker = w; queue = ks })
  unfolding Due Waiting
  Due-move q w ks s d = Due-waiting q (λ m found _. (m, found, s m)) d

  Due-take_key :
      (q : ReindexQueue) (ks : List String) → Due key base q → Due key base (take_key ks q)
  unfolding take_key
  Due-take_key q [] d = d
  Due-take_key q (k ∷ ks) d = Due-move q (taken k) ks (λ m. tt) d

  Due-work_at :
      (o : Outcome) (q : ReindexQueue) (w : Worker)
      → q.worker ≡ w
      → Due key base q
      → Due key base (work_at w o q)
  unfolding work_at take_key
  Due-work_at o q absent at d = d
  Due-work_at o q exited at d = d
  Due-work_at o q at_loop at d = elim (Bool-cases (q.stop && is_empty q.queue)) [
    | inl t ↦ rw (t, work_at) (Due-move q exited q.queue (λ m. tt) d)
    | inr f ↦ rw (f, work_at) (Due-take_key q q.queue d)
  ]
  Due-work_at o q (taken k) at d = elim (Option-cases (lookup k q.versions)) [
    | inl e ↦ rw (e, work_at) (Due-move q at_loop q.queue (λ m. tt) d)
    | inr (c, e) ↦ rw (e, work_at) (Due-move q (observed k c) q.queue (λ m. tt) d)
  ]
  Due-work_at o q (observed k v) at d = Due-run k v o q d
  Due-work_at o q (ran k v) at d = Due-finish k v q at d

  Due-Step : {q t : ReindexQueue} → Step q t → Due key base q → Due key base t
  unfolding Due Waiting work refuse signal
  Due-Step {q} (enqueues k) d = Due-enqueue_key k q d
  Due-Step {q} (works o) d = Due-work_at o q q.worker refl d
  Due-Step refuses d = d
  Due-Step (signals h) d = d

  Due-Reach : {s t : ReindexQueue} → Reach s t → Due key base s → Due key base t
  Due-Reach here d = d
  Due-Reach (next r step) d = Due-Step step (Due-Reach r d)

-- An accepted key is due, whatever the worker is at.
Due-accepted :
    (key : String) (q : ReindexQueue)
    → IsValid q
    → accepted (enqueue_key key q).1 ≡ true
    → Due key (runs key q.calls) (enqueue_key key q).0
unfolding Due Waiting accepted
Due-accepted key q v a = elim (enqueue_key-cases key q) [
  | turns_away _ e ↦ absurd (ground (arith, e))
  | full _ _ _ e ↦ absurd (ground (arith, e))
  | coalesces c _ found e ↦ rw e (
      inr (
        omega arith,
        (
          c + 1,
          ground (arith, lookup-insert key key (c + 1) q.versions, eq_iff key key),
          Stale-coalesced key c q.versions q.worker found v.in_flight,
        ),
      ))
  | admits w _ unknown room kept e ↦ rw e (
      inr (
        omega arith,
        (
          1,
          ground (arith, lookup-insert key key 1 q.versions, eq_iff key key),
          Stale-Started key 1 kept (
              Stale-suc key 0 1 q.worker (omega arith)
                (Stale-unknown key q.versions q.worker unknown v.in_flight)),
        ),
      ))
]

-- Once an accepted key is pending no more, the indexer has been called for it after the key was
-- accepted, whatever happened in between: no update is lost.
pub enqueue-served :
    (key : String) (q t : ReindexQueue)
    → IsValid q
    → accepted (enqueue_key key q).1 ≡ true
    → Reach (enqueue_key key q).0 t
    → lookup key t.versions ≡ none
    → runs key q.calls < runs key t.calls
unfolding Due Waiting
enqueue-served key q t v a r e =
    elim (Due-Reach key (runs key q.calls) r (Due-accepted key q v a)) [
      | inl h ↦ h
      | inr (h, (m, found, s)) ↦ absurd (ground arith)
    ]
