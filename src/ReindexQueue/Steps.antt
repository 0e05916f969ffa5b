-- ===== src/ReindexQueue/Steps.antt =====
-- Every step of every thread keeps the invariant of the queue.
use text.Mathlib.TextEquality.{eq_iff}
use vault_search_mcp.Prelude.{
  ℕ, Bool-cases, Option-cases, String, [], arith, inl, inr, some, ◌++◌, ◌==◌, ◌∷◌, ◌≡◌, nat_eq,
  string_eq, List, refl, true, ◌&&◌,
}
use vault_search_mcp.Dict.{lookup, remove}
use vault_search_mcp.Dict.Laws.{contains-remove, length-remove-le, remove-Distinct}
use vault_search_mcp.ReindexQueue.{
  ReindexQueue, at_loop, finish, is_alive, ran, Call, Outcome, Worker, absent, exited, is_empty,
  observed, raised, run_index, take_key, taken, work_at, Reach, Step, enqueues, here, init, next,
  refuse, refuses, signal, signals, work, works,
}
use vault_search_mcp.ReindexQueue.Invariant.{
  IsValid, contains-eq-some, count, count-append, holds, InFlight, contains-eq-none,
  empty_of_not-contains, enqueue_key-IsValid, init-IsValid,
}

module _ (key : String) (q : ReindexQueue) (v : IsValid q) (n : ℕ) (at : q.worker ≡ ran key n) where
  finish_done :
      (c : ℕ)
      → lookup key q.versions ≡ some c
      → IsValid (record q { versions = remove key q.versions; worker = at_loop })
  unfolding holds is_alive
  finish_done c e = record {
    positive = v.positive;
    distinct = remove-Distinct key q.versions v.distinct;
    bounded = omega (arith, length-remove-le key q.versions, v.bounded);
    once = λ j. ground (
      arith,
      v.once j,
      contains-remove key j q.versions,
      eq_iff key j,
      contains-eq-some key q.versions e,
    );
    in_flight = tt;
    served = λ d. cc;
    stopping = v.stopping;
  }

  finish_again :
      (c : ℕ)
      → lookup key q.versions ≡ some c
      → IsValid (record q { queue = q.queue ++ key ∷ []; worker = at_loop })
  unfolding holds is_alive count
  finish_again c e = record {
    positive = v.positive;
    distinct = v.distinct;
    bounded = v.bounded;
    once = λ j. ground (arith, v.once j, count-append j q.queue (key ∷ []));
    in_flight = tt;
    served = λ d. cc;
    stopping = v.stopping;
  }

  finish-IsValid : IsValid (finish key n q)
  unfolding finish
  finish-IsValid = elim (Option-cases (lookup key q.versions)) [
    | inl e ↦ absurd (ground (arith, v.in_flight, at, e))
    | inr (c, e) ↦ elim (Bool-cases (c == n)) [
      | inl t ↦ rw (e, finish, t) (finish_done c e)
      | inr f ↦ rw (e, finish, f) (finish_again c e)
    ]
  ]

nil_of_is_empty : (ks : List String) → is_empty ks ≡ true → ks ≡ []
unfolding is_empty
nil_of_is_empty [] h = refl
nil_of_is_empty (k ∷ ks) h = cc

module _ (q : ReindexQueue) (v : IsValid q) where
  exit-IsValid :
      q.worker ≡ at_loop → q.stop ≡ true → q.queue ≡ [] → IsValid (record q { worker = exited })
  unfolding holds is_alive count
  exit-IsValid at ended none_left = record {
    positive = v.positive;
    distinct = v.distinct;
    bounded = v.bounded;
    once = λ j. ground (arith, v.once j, at);
    in_flight = tt;
    served = λ _. empty_of_not-contains q.versions (λ j. ground (arith, v.once j, at, none_left));
    stopping = v.stopping;
  }

  take_key-IsValid :
      (ks : List String) → q.worker ≡ at_loop → q.queue ≡ ks → IsValid (take_key ks q)
  unfolding take_key holds is_alive count
  take_key-IsValid [] at e = v
  take_key-IsValid (k ∷ ks) at e = record {
    positive = v.positive;
    distinct = v.distinct;
    bounded = v.bounded;
    once = λ j. ground (arith, v.once j, at, e);
    in_flight = tt;
    served = λ d. cc;
    stopping = v.stopping;
  }

  -- A step of the worker that keeps its key, or drops a key that is not pending.
  move-IsValid :
      (w : Worker)
      → is_alive w ≡ true
      → ((j : String) → holds j w ≡ holds j q.worker)
      → InFlight w q.versions
      → (calls : List Call) → IsValid (record q { worker = w; calls = calls })
  move-IsValid w live same flight calls = record {
    positive = v.positive;
    distinct = v.distinct;
    bounded = v.bounded;
    once = λ j. ground (arith, v.once j, same j);
    in_flight = flight;
    served = λ d. cc;
    stopping = v.stopping;
  }

  observe-IsValid : (key : String) → q.worker ≡ taken key → IsValid (work_at (taken key) raised q)
  unfolding work_at holds is_alive
  observe-IsValid key at = elim (Option-cases (lookup key q.versions)) [
    | inl e ↦
        absurd (ground (arith, v.once key, at, contains-eq-none key q.versions e, eq_iff key key))
    | inr (c, e) ↦
        rw (e, work_at)
          (move-IsValid (observed key c) refl (λ j. rw at) (rw e (omega arith)) q.calls)
  ]

  work_at-IsValid : (o : Outcome) (w : Worker) → q.worker ≡ w → IsValid (work_at w o q)
  unfolding work_at is_alive holds
  work_at-IsValid o absent at = v
  work_at-IsValid o exited at = v
  work_at-IsValid o at_loop at = elim (Bool-cases (q.stop && is_empty q.queue)) [
    | inl t ↦
        rw (t, work_at) (exit-IsValid at (ground arith) (nil_of_is_empty q.queue (ground arith)))
    | inr f ↦ rw (f, work_at) (take_key-IsValid q.queue at refl)
  ]
  work_at-IsValid o (taken key) at = observe-IsValid key at
  work_at-IsValid o (observed key n) at =
      move-IsValid (ran key n) refl (λ j. rw at) (rw at at v.in_flight) (run_index key o ++ q.calls)
  work_at-IsValid o (ran key n) at = finish-IsValid key q v n at

Step-IsValid : {q t : ReindexQueue} → Step q t → IsValid q → IsValid t
unfolding work refuse signal
Step-IsValid {q} (enqueues key) v = enqueue_key-IsValid key q v
Step-IsValid {q} (works o) v = work_at-IsValid q v o q.worker refl
Step-IsValid refuses v = record {
  positive = v.positive;
  distinct = v.distinct;
  bounded = v.bounded;
  once = v.once;
  in_flight = v.in_flight;
  served = v.served;
  stopping = λ _. refl;
}
Step-IsValid (signals h) v = record {
  positive = v.positive;
  distinct = v.distinct;
  bounded = v.bounded;
  once = v.once;
  in_flight = v.in_flight;
  served = v.served;
  stopping = λ _. h;
}

pub Reach-IsValid : {s t : ReindexQueue} → IsValid s → Reach s t → IsValid t
Reach-IsValid v here = v
Reach-IsValid v (next r step) = Step-IsValid step (Reach-IsValid v r)

-- However producers, the worker and a stop interleave, the queue keeps its invariant: at most
-- `max_pending` keys are pending, each stands exactly once in the queue or with the worker, no
-- other key does, and without a live worker nothing is pending.
pub Reach-init-IsValid : (n : ℕ) (t : ReindexQueue) → Reach (init n) t → IsValid t
Reach-init-IsValid n t r = Reach-IsValid (init-IsValid n) r
