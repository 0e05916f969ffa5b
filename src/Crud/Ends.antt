-- ===== src/Crud/Ends.antt =====
-- How the steps of an operation end: with a value, or without having written anything.
pub mod Reading
pub mod Writing
pub mod Moving
use mathlib.Core.List.{append_assoc}
use vault_search_mcp.Prelude.{
  ◌++◌, ◌∙◌, ap, sym, ℕ, List, String, Option, Bool, [], ◌∷◌, ◌≡◌, refl, true, false, EqType,
  nat_eq, string_eq,
}
use vault_search_mcp.Prelude.Text.{Text}
use vault_search_mcp.Dict.{lookup}
use vault_search_mcp.Crud.World.{
  Look, World, Event, Fault, FileRevision, Files, Io, LockOutcome, OperationResult, Outcome, Write,
  acquired, continue, failing, fine, lock_failed, lock_outside, outside, raised, require, returned,
  timed_out, value, ◌>>=◌, pure,
}
use vault_search_mcp.Crud.Calls.{
  advisory_path_lock, call, end_call, end_resolve, file_revision, lock_next, resolve_call,
  revision_at, step,
}
use vault_search_mcp.Crud.Env.{Env, validate_for_write}
use vault_search_mcp.Crud.Write.{found_or, bail_unless, make_parents}

-- What other processes do: the races to come, and the events of all calls.
pub record Others : Type 0 where
  pub races : List (Files → Files)
  pub events : List Event

abbrev pub others : World → Others
others w = record { races = w.races; events = w.events }

abbrev pub Tail : List Event → List Event → Type 0
Tail events rest = (earlier : List Event) × (earlier ++ rest ≡ events)

-- What the notes' history, the races to come and the looks at files are, and that the events to
-- come are some of all events.
abbrev pub Calm : List Write → Others → List Look → World → Type 0
Calm ws rs ds w =
    (w.writes ≡ ws) × ((w.races ≡ rs.races) × Tail rs.events w.events) × (w.looks ≡ ds)

-- A value has the property, a result that is returned early is an error, and nothing was written
-- then or with an exception.
abbrev pub End : List Write → {A : Type 0} → (A → World → Type 0) → World × Outcome A → Type 0
End ws V (w, value a) = V a w
End ws V (w, returned r) = (w.writes ≡ ws) × (r.success ≡ false)
End ws V (w, raised e) = w.writes ≡ ws

pub record Ends (ws : List Write) {A : Type 0} (V : A → World → Type 0) (r : World × Outcome A)
    : Type 0 where
  pub holds : End ws V r

-- A step that may come before a write, and is not one that looks at a note.
pub record Keeps (ws : List Write) (rs : Others) (ds : List Look) {A : Type 0} (m : Io A)
    : Type 0 where
  pub run : (w : World) → Calm ws rs ds w → End ws (λ _ w'. Calm ws rs ds w') (m w)

module _ {ws : List Write} {A B : Type 0} where
  End-continue :
      (V : A → World → Type 0) (U : B → World → Type 0) (f : A → Io B) (w : World) (o : Outcome A)
      → Ends ws V (w, o)
      → ((a : A) (w' : World) → V a w' → Ends ws U (f a w'))
      → Ends ws U (continue f w o)
  End-continue V U f w (value a) h k = k a w h.holds
  End-continue V U f w (returned r) h k = record { holds = h.holds }
  End-continue V U f w (raised e) h k = record { holds = h.holds }

  pub Ends-bind :
      {V : A → World → Type 0} {U : B → World → Type 0} (m : Io A) {f : A → Io B} {w : World}
      → Ends ws V (m w)
      → ((a : A) (w' : World) → V a w' → Ends ws U (f a w'))
      → Ends ws U ((m >>= f) w)
  unfolding ◌>>=◌
  Ends-bind {V = V} {U = U} m {f = f} {w = w} h k = End-continue V U f (m w).0 (m w).1 h k

module _ {ws : List Write} {rs : Others} {ds : List Look} {A B : Type 0} where
  pub Keeps-bind :
      {m : Io A} {f : A → Io B}
      → Keeps ws rs ds m
      → ((a : A) → Keeps ws rs ds (f a))
      → Keeps ws rs ds (m >>= f)
  Keeps-bind {m = m} {f = f} h k = record {
    run = λ w c.
        (Ends-bind {V = λ _ w'. Calm ws rs ds w'} {U = λ _ w'. Calm ws rs ds w'} m {f = f} {w = w}
          (record { holds = h.run w c }) (λ a w' c'. record { holds = (k a).run w' c' })).holds;
  }

  -- After a step that keeps the history.
  pub Keeps-Ends :
      {U : B → World → Type 0} {m : Io A} {f : A → Io B} (w : World)
      → Keeps ws rs ds m
      → Calm ws rs ds w
      → ((a : A) (w' : World) → Calm ws rs ds w' → Ends ws U (f a w'))
      → Ends ws U ((m >>= f) w)
  Keeps-Ends {m = m} w h c k =
      Ends-bind {V = λ _ w'. Calm ws rs ds w'} m (record { holds = h.run w c }) k

module _ {ws : List Write} {rs : Others} {ds : List Look} where
  pub pure-Keeps : {A : Type 0} (a : A) → Keeps ws rs ds (pure a)
  pure-Keeps a = record { run = λ w c. c }

  pub step-Calm :
      (es : List Event) (w : World) → w.events ≡ es → Calm ws rs ds w → Calm ws rs ds (step es w).0
  unfolding step
  step-Calm [] w h c = c
  step-Calm (e ∷ es) w h c =
      let (earlier, p) = c.1.1 in
      (
        c.0,
        (
          c.1.0,
          (
            earlier ++ e ∷ [],
            append_assoc earlier (e ∷ []) es
                ∙ ap (λ (rest : List Event). earlier ++ rest) (sym h)
                ∙ p,
          ),
        ),
        c.2,
      )

  end_call-Keeps : (fault : Fault) (stamp : FileRevision) → Keeps ws rs ds (end_call fault stamp)
  unfolding end_call
  end_call-Keeps fine stamp = record { run = λ w c. c }
  end_call-Keeps failing stamp = record { run = λ w c. c.0 }
  end_call-Keeps outside stamp = record { run = λ w c. c }

  pub call-Keeps : Keeps ws rs ds call
  unfolding call
  call-Keeps = record { run = λ w c. (end_call-Keeps _ _).run _ (step-Calm w.events w refl c) }

  end_resolve-Keeps : (fault : Fault) → Keeps ws rs ds (end_resolve fault)
  unfolding end_resolve
  end_resolve-Keeps fine = record { run = λ w c. c }
  end_resolve-Keeps failing = record { run = λ w c. c.0 }
  end_resolve-Keeps outside = record { run = λ w c. c.0 }

  pub resolve_call-Keeps : Keeps ws rs ds resolve_call
  unfolding resolve_call
  resolve_call-Keeps = record {
    run = λ w c. (end_resolve-Keeps _).run _ (step-Calm w.events w refl c);
  }

  pub require-Keeps : (b : Bool) → Keeps ws rs ds (require b)
  unfolding require
  require-Keeps true = record { run = λ w c. c }
  require-Keeps false = record { run = λ w c. c.0 }

  lock_next-Keeps : (locks : List LockOutcome) → Keeps ws rs ds (lock_next locks)
  unfolding lock_next
  lock_next-Keeps [] = record { run = λ w c. c }
  lock_next-Keeps (acquired ∷ locks) = record { run = λ w c. c }
  lock_next-Keeps (timed_out ∷ locks) = record { run = λ w c. c.0 }
  lock_next-Keeps (lock_outside ∷ locks) = record { run = λ w c. c.0 }
  lock_next-Keeps (lock_failed ∷ locks) = record { run = λ w c. c.0 }

  pub lock-Keeps : (file : String) → Keeps ws rs ds (advisory_path_lock file)
  unfolding advisory_path_lock
  lock-Keeps file = record { run = λ w c. (lock_next-Keeps w.locks).run w c }

  pub bail_unless-Keeps :
      (r : OperationResult) (b : Bool) → r.success ≡ false → Keeps ws rs ds (bail_unless r b)
  unfolding bail_unless
  bail_unless-Keeps r true e = record { run = λ w c. c }
  bail_unless-Keeps r false e = record { run = λ w c. (c.0, e) }

  -- What `file_revision` returns is there at that moment.
  pub file_revision-Ends :
      (file : String) (w : World)
      → Calm ws rs ds w
      → Ends ws
          (λ seen w'. Calm ws rs ds w' × (revision_at (lookup file w'.files) ≡ seen))
          (file_revision file w)
  unfolding file_revision
  file_revision-Ends file w c =
      Ends-bind {V = λ _ w'. Calm ws rs ds w'} call (record { holds = call-Keeps.run w c })
        (λ _ w' c'. record { holds = (c', refl) })

  pub file_revision-Keeps : (file : String) → Keeps ws rs ds (file_revision file)
  unfolding file_revision
  file_revision-Keeps file = Keeps-bind call-Keeps (λ _. record { run = λ w c. c })

  pub make_parents-Keeps : Keeps ws rs ds make_parents
  unfolding make_parents
  make_parents-Keeps = Keeps-bind call-Keeps (λ _. record { run = λ w c. c })
