-- ===== src/ReindexQueue/Cases.antt =====
-- What `_enqueue_key` does, case by case.
use vault_search_mcp.Prelude.{
  ℕ, Bool-cases, Option-cases, String, [], arith, false, inl, inr, leb, length, none, refl, some,
  true, ◌++◌, ◌+◌, ◌<◌, ◌∷◌, ◌≡◌, ◌≤◌, nat_eq, string_eq,
}
use vault_search_mcp.Dict.{insert, lookup}
use vault_search_mcp.ReindexQueue.{
  ReindexQueue, Worker, at_loop, coalesced, enqueue_key, ensure_worker_locked, is_alive, queue_full,
  queued, stopped,
}

-- The worker that a new key finds: the one that lives, or a new one.
pub data Started (before after : Worker) : Type 0 where
  lives : is_alive before ≡ true → after ≡ before → Started before after
  begins : is_alive before ≡ false → after ≡ at_loop → Started before after

pub data EnqueueCase (key : String) (q : ReindexQueue) : Type 0 where
  turns_away : q.accepting ≡ false → enqueue_key key q ≡ (q, stopped) → EnqueueCase key q
  coalesces :
      (c : ℕ)
      → q.accepting ≡ true
      → lookup key q.versions ≡ some c
      → enqueue_key key q ≡ (record q { versions = insert key (c + 1) q.versions }, coalesced)
      → EnqueueCase key q
  full :
      q.accepting ≡ true
      → lookup key q.versions ≡ none
      → q.max_pending ≤ length q.versions
      → enqueue_key key q ≡ (q, queue_full)
      → EnqueueCase key q
  admits :
      (w : Worker)
      → q.accepting ≡ true
      → lookup key q.versions ≡ none
      → length q.versions < q.max_pending
      → Started q.worker w
      → enqueue_key key q ≡ (
        record q { versions = insert key 1 q.versions; queue = q.queue ++ key ∷ []; worker = w },
        queued,
      )
      → EnqueueCase key q

ensure_worker_locked-Started :
    (q : ReindexQueue)
    → (w : Worker) × Started q.worker w × (ensure_worker_locked q ≡ record q { worker = w })
unfolding ensure_worker_locked
ensure_worker_locked-Started q = elim (Bool-cases (is_alive q.worker)) [
  | inl a ↦ (q.worker, lives a refl, ground arith)
  | inr d ↦ (at_loop, begins d refl, ground arith)
]

pub enqueue_key-cases : (key : String) (q : ReindexQueue) → EnqueueCase key q
unfolding enqueue_key
enqueue_key-cases key q = elim (Bool-cases q.accepting) [
  | inr a ↦ turns_away a (ground arith)
  | inl a ↦ elim (Option-cases (lookup key q.versions)) [
    | inr (c, e) ↦ coalesces c a e (ground arith)
    | inl e ↦ elim (Bool-cases (leb q.max_pending (length q.versions))) [
      | inl f ↦ full a e (ground arith) (ground arith)
      | inr f ↦
          let (w, started, after) =
            ensure_worker_locked-Started
              (record q { versions = insert key 1 q.versions; queue = q.queue ++ key ∷ [] }) in
          admits w a e (ground arith) started (ground (arith, after))
    ]
  ]
]
