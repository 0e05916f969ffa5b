-- ===== src/Shutdown/Once.antt =====
-- The callbacks of src/vault_search/utils/shutdown.py under every interleaving of the threads.
use vault_search_mcp.Prelude.{
  ℕ, Bool, true, false, List, [], ◌∷◌, ◌++◌, ◌≡◌, ◌+◌, ◌≤◌, if◌then◌else◌, refl, arith, Bool-cases,
  inl, inr, nat_eq, ◌==◌, ◌∙◌, sym, suc, zero, ap, length, length-append,
}
use mathlib.Core.Path.{subst}
use mathlib.Core.List.{append-nil, append_assoc}
use vault_search_mcp.Shutdown.{
  Runner, idle, won, started, running, ended, ShutdownState, init, is_member, remove_first,
  reversed, request_shutdown, register_callback, unregister_callback, try_start_shutdown, work_at,
  work, Step, requests, registers, unregisters, starts, works, Reach, here, next,
}

-- How often a callback is in a list.
unfoldable pub count : ℕ → List ℕ → ℕ
count c [] = 0
count c (d ∷ ds) = if d == c then suc (count c ds) else count c ds

count-append : (c : ℕ) (xs ys : List ℕ) → count c (xs ++ ys) ≡ count c xs + count c ys
unfolding count
count-append c [] ys = omega arith
count-append c (x ∷ xs) ys = ground (arith, count-append c xs ys)

count-reversed : (c : ℕ) (xs : List ℕ) → count c (reversed xs) ≡ count c xs
unfolding count reversed
count-reversed c [] = refl
count-reversed c (x ∷ xs) =
    ground (arith, count-append c (reversed xs) (x ∷ []), count-reversed c xs)

count-absent : (c : ℕ) (xs : List ℕ) → is_member c xs ≡ false → count c xs ≡ 0
unfolding count is_member
count-absent c [] h = refl
count-absent c (x ∷ xs) h = ground (arith, count-absent c xs)

count-remove_first : (c d : ℕ) (xs : List ℕ) → count c (remove_first d xs) ≤ count c xs
unfolding count remove_first
count-remove_first c d [] = omega arith
count-remove_first c d (x ∷ xs) = ground (arith, count-remove_first c d xs)

-- No callback is twice in the list.
abbrev pub IsDistinct : List ℕ → Type 0
IsDistinct xs = (c : ℕ) → count c xs ≤ 1

-- What the runner's point says of the calls made so far.
abbrev pub IsCalled : Runner → List ℕ → Type 0
IsCalled idle called = called ≡ []
IsCalled won called = called ≡ []
IsCalled started called = called ≡ []
IsCalled (running copy rest) called = (called ++ rest ≡ reversed copy) × IsDistinct copy
IsCalled (ended copy) called = (called ≡ reversed copy) × IsDistinct copy

pub record IsValid (s : ShutdownState) : Type 0 where
  pub distinct : IsDistinct s.callbacks
  pub in_order : IsCalled s.runner s.called
  pub unstarted : s.shutdown_in_progress ≡ false → s.runner ≡ idle

IsDistinct-append :
    (c : ℕ) (xs : List ℕ) → is_member c xs ≡ false → IsDistinct xs → IsDistinct (xs ++ c ∷ [])
unfolding count
IsDistinct-append c xs new h d =
    ground (arith, count-append d xs (c ∷ []), count-absent c xs new, h d, nat_eq.beq_iff c d)

register_callback-IsValid :
    (c : ℕ) (s : ShutdownState) → IsValid s → IsValid (register_callback c s)
unfolding register_callback
register_callback-IsValid c s v = elim (Bool-cases (is_member c s.callbacks)) [
  | inl known ↦ rw known v
  | inr new ↦ rw new (record {
    distinct = IsDistinct-append c s.callbacks new v.distinct;
    in_order = v.in_order;
    unstarted = v.unstarted;
  })
]

unregister_callback-IsValid :
    (c : ℕ) (s : ShutdownState) → IsValid s → IsValid (unregister_callback c s)
unfolding unregister_callback
unregister_callback-IsValid c s v = elim (Bool-cases (is_member c s.callbacks)) [
  | inl known ↦ rw known (record {
    distinct = λ d. omega (arith, count-remove_first d c s.callbacks, v.distinct d);
    in_order = v.in_order;
    unstarted = v.unstarted;
  })
  | inr unknown ↦ rw unknown v
]

none_called : (r : Runner) (called : List ℕ) → r ≡ idle → IsCalled r called → called ≡ []
none_called r called e k = subst (λ (q : Runner). IsCalled q called) e k

if-IsValid :
    (test : Bool) (s t : ShutdownState)
    → (test ≡ true → IsValid s)
    → (test ≡ false → IsValid t)
    → IsValid (if test then s else t)
if-IsValid true s t f g = f refl
if-IsValid false s t f g = g refl

try_start_shutdown-IsValid : (s : ShutdownState) → IsValid s → IsValid (try_start_shutdown s)
unfolding try_start_shutdown
try_start_shutdown-IsValid s v =
    if-IsValid s.shutdown_in_progress s (record s { shutdown_in_progress = true; runner = won })
      (λ busy. v)
      (λ free. record {
        distinct = v.distinct;
        in_order = none_called s.runner s.called (v.unstarted free) v.in_order;
        unstarted = λ h. cc;
      })

-- The runner at each of its points.
work_at-IsValid :
    (r : Runner) (s : ShutdownState)
    → IsDistinct s.callbacks
    → (s.shutdown_in_progress ≡ false → r ≡ idle)
    → s.runner ≡ r
    → IsCalled r s.called
    → IsValid (work_at r s)
unfolding work_at request_shutdown
work_at-IsValid idle s d u e k = record { distinct = d; in_order = rw e k; unstarted = λ h. e }
work_at-IsValid won s d u e k = record {
  distinct = d;
  in_order = k;
  unstarted = λ h. absurd (ground (arith, u h));
}
work_at-IsValid started s d u e k = record {
  distinct = d;
  in_order = (rw k refl, d);
  unstarted = λ h. absurd (ground (arith, u h));
}
work_at-IsValid (running copy (c ∷ rest)) s d u e k = record {
  distinct = d;
  in_order = (append_assoc s.called (c ∷ []) rest ∙ k.0, k.1);
  unstarted = λ h. absurd (ground (arith, u h));
}
work_at-IsValid (running copy []) s d u e k = record {
  distinct = d;
  in_order = (sym (append-nil s.called) ∙ k.0, k.1);
  unstarted = λ h. absurd (ground (arith, u h));
}
work_at-IsValid (ended copy) s d u e k = record {
  distinct = d;
  in_order = rw e k;
  unstarted = λ h. e ∙ u h;
}

Step-IsValid : {s t : ShutdownState} → Step s t → IsValid s → IsValid t
unfolding request_shutdown work
Step-IsValid {s} requests v = record {
  distinct = v.distinct;
  in_order = v.in_order;
  unstarted = v.unstarted;
}
Step-IsValid {s} (registers c) v = register_callback-IsValid c s v
Step-IsValid {s} (unregisters c) v = unregister_callback-IsValid c s v
Step-IsValid {s} starts v = try_start_shutdown-IsValid s v
Step-IsValid {s} works v = work_at-IsValid s.runner s v.distinct v.unstarted refl v.in_order

Reach-IsValid : {s t : ShutdownState} → Reach s t → IsValid s → IsValid t
Reach-IsValid here v = v
Reach-IsValid (next r x) v = Step-IsValid x (Reach-IsValid r v)

-- Each callback was called at most once.
called_once : (r : Runner) (called : List ℕ) → IsCalled r called → IsDistinct called
unfolding count
called_once idle called k c = rw k (omega arith)
called_once won called k c = rw k (omega arith)
called_once started called k c = rw k (omega arith)
called_once (running copy rest) called k c =
    omega (arith, count-append c called rest, ap (count c) k.0, count-reversed c copy, k.1 c)
called_once (ended copy) called k c = rw k.0 (omega (arith, count-reversed c copy, k.1 c))

-- The runner's next steps, while the other threads rest.
unfoldable pub run : ℕ → ShutdownState → ShutdownState
unfolding work
run zero s = s
run (suc n) s = run n (work s)

run_rest :
    (rest copy called callbacks : List ℕ) (requested in_progress : Bool)
    → run (suc (length rest)) (record {
      shutdown_requested = requested;
      shutdown_in_progress = in_progress;
      callbacks = callbacks;
      runner = running copy rest;
      called = called;
    })
      ≡ record {
        shutdown_requested = requested;
        shutdown_in_progress = in_progress;
        callbacks = callbacks;
        runner = ended copy;
        called = called ++ rest;
      }
unfolding run work work_at
run_rest [] copy called callbacks requested in_progress = rw append-nil refl
run_rest (c ∷ rest) copy called callbacks requested in_progress =
    run_rest rest copy (called ++ c ∷ []) callbacks requested in_progress ∙ rw append_assoc refl

length-reversed : (xs : List ℕ) → length (reversed xs) ≡ length xs
unfolding reversed
length-reversed [] = refl
length-reversed (x ∷ xs) = omega (arith, length-append (reversed xs) (x ∷ []), length-reversed xs)

-- The whole run of the thread that won.
run_all :
    (s : ShutdownState)
    → s.called ≡ []
    → (run
        (suc (suc (suc (length s.callbacks))))
        (record s { shutdown_in_progress = true; runner = won })).called
      ≡ reversed s.callbacks
unfolding run work work_at request_shutdown
run_all s e =
    rw
      (
        ← length-reversed s.callbacks,
        run_rest (reversed s.callbacks) s.callbacks s.called s.callbacks true true,
        e,
      )
      refl

started_of :
    (s : ShutdownState)
    → s.shutdown_in_progress ≡ false
    → try_start_shutdown s ≡ record s { shutdown_in_progress = true; runner = won }
unfolding try_start_shutdown
started_of s free = if_false s.shutdown_in_progress free
  where
    if_false :
        (test : Bool)
        → test ≡ false
        → (if test then s else record s { shutdown_in_progress = true; runner = won })
          ≡ record s { shutdown_in_progress = true; runner = won }
    if_false true h = cc
    if_false false h = refl

init-IsValid : IsValid init
unfolding count
init-IsValid = record { distinct = λ c. omega arith; in_order = refl; unstarted = λ h. refl }

-- In every state that the threads can reach, no callback has been called twice, and those that have
-- been called are the copied list from its end, as far as the runner has come. From a state in which
-- no shutdown is in progress, a shutdown that the other threads leave alone calls all registered
-- callbacks, the last registered first, in three more steps than there are callbacks.
pub Reach-init-IsOnce :
    (s : ShutdownState)
    → Reach init s
    → IsDistinct s.called
      × IsCalled s.runner s.called
      × (s.shutdown_in_progress ≡ false
          → (run (suc (suc (suc (length s.callbacks)))) (try_start_shutdown s)).called
            ≡ reversed s.callbacks)
Reach-init-IsOnce s r =
    let v = Reach-IsValid r init-IsValid in
    (
      called_once s.runner s.called v.in_order,
      v.in_order,
      λ free.
          ap (λ (t : ShutdownState). (run (suc (suc (suc (length s.callbacks)))) t).called)
            (started_of s free)
          ∙ run_all s (none_called s.runner s.called (v.unstarted free) v.in_order),
    )
