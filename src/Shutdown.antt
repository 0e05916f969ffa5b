-- ===== src/Shutdown.antt =====
-- The shutdown of src/vault_search/utils/shutdown.py: its state, and the steps of the threads. A
-- callback is known by a number; whether it raises does not matter, since that is logged. The timeout
-- ends the waiting for the callbacks, not the callbacks.
use vault_search_mcp.Prelude.{
  ℕ, Bool, true, false, List, [], ◌∷◌, ◌++◌, if◌then◌else◌, nat_eq, ◌==◌,
}
pub mod Once

-- The thread that won the transition, and then the one that runs the callbacks: it holds a copy of
-- the list and what is left of it.
pub data Runner : Type 0 where
  idle won started : Runner
  running : List ℕ → List ℕ → Runner
  ended : List ℕ → Runner

-- `_ShutdownState`, with the callbacks that were called, in their order.
pub record ShutdownState : Type 0 where
  pub shutdown_requested : Bool
  pub shutdown_in_progress : Bool
  pub callbacks : List ℕ
  pub runner : Runner
  pub called : List ℕ

abbrev pub init : ShutdownState
init = record {
  shutdown_requested = false;
  shutdown_in_progress = false;
  callbacks = [];
  runner = idle;
  called = [];
}

unfoldable pub is_member : ℕ → List ℕ → Bool
is_member c [] = false
is_member c (d ∷ ds) = if d == c then true else is_member c ds

-- `list.remove`
unfoldable pub remove_first : ℕ → List ℕ → List ℕ
remove_first c [] = []
remove_first c (d ∷ ds) = if d == c then ds else d ∷ remove_first c ds

-- `reversed(callbacks)`
unfoldable pub reversed : List ℕ → List ℕ
reversed [] = []
reversed (c ∷ cs) = reversed cs ++ c ∷ []

unfoldable pub request_shutdown : ShutdownState → ShutdownState
request_shutdown s = record s { shutdown_requested = true }

unfoldable pub register_callback : ℕ → ShutdownState → ShutdownState
unfolding is_member
register_callback c s =
    if is_member c s.callbacks then s else record s { callbacks = s.callbacks ++ c ∷ [] }

unfoldable pub unregister_callback : ℕ → ShutdownState → ShutdownState
unfolding is_member remove_first
unregister_callback c s =
    if is_member c s.callbacks then record s { callbacks = remove_first c s.callbacks } else s

-- `shutdown` up to the test of `try_start_shutdown`, one block under the lock; another caller returns.
unfoldable pub try_start_shutdown : ShutdownState → ShutdownState
try_start_shutdown s =
    if s.shutdown_in_progress then s else record s { shutdown_in_progress = true; runner = won }

-- What is left of `shutdown` for the caller that won, and `run_callbacks`.
unfoldable pub work_at : Runner → ShutdownState → ShutdownState
unfolding request_shutdown reversed
work_at idle s = s
work_at won s = record (request_shutdown s) { runner = started }
work_at started s = record s { runner = running s.callbacks (reversed s.callbacks) }
work_at (running copy (c ∷ rest)) s = record s {
  runner = running copy rest;
  called = s.called ++ c ∷ [];
}
work_at (running copy []) s = record s { runner = ended copy }
work_at (ended copy) s = s

unfoldable pub work : ShutdownState → ShutdownState
unfolding work_at
work s = work_at s.runner s

pub data Step (s : ShutdownState) : ShutdownState → Type 0 where
  requests : Step s (request_shutdown s)
  registers : (c : ℕ) → Step s (register_callback c s)
  unregisters : (c : ℕ) → Step s (unregister_callback c s)
  starts : Step s (try_start_shutdown s)
  works : Step s (work s)

pub data Reach (s : ShutdownState) : ShutdownState → Type 0 where
  here : Reach s s
  next : {t u : ShutdownState} → Reach s t → Step t u → Reach s u
