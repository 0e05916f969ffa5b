-- ===== src/Crud/Effects/Trash.antt =====
-- What `delete_note` does to the notes.
use vault_search_mcp.Prelude.{
  [], ℕ, List, String, Option, Bool, ◌++◌, ◌∷◌, ◌≡◌, refl, true, false, arith, if◌then◌else◌, none,
  some, suc, ap, is_some, zero, nat_eq, string_eq,
}
use vault_search_mcp.Prelude.Text.{Text, strip}
use vault_search_mcp.Dict.{lookup}
use vault_search_mcp.Crud.World.{
  Event, Fault, fine, failing, outside, Look, Io, pure, looked_at, World, ◌>>=◌, File, FileRevision,
  Files, OperationResult, Write, error_result, relocated, replaced, same_found, no_trash_name,
  note_not_found, trash_failed, trashed,
}
use vault_search_mcp.Crud.Calls.{call, end_call, step, file_revision, revision_at}
use vault_search_mcp.Crud.Env.{
  Env, resolve_path, validate_extension, resolve_internal_path, validate_not_ignored_folder,
}
use vault_search_mcp.Crud.Write.{bail_unless, write_conflict_result}
use vault_search_mcp.Crud.Delete.{
  delete_note, delete_body, exists, free_name, move_or, name_or, delete_locked, trash_target,
}
use vault_search_mcp.Crud.Ends.{
  step-Calm, Others, others, Ends, Keeps-bind, Keeps-Ends, Ends-bind, call-Keeps,
  file_revision-Keeps, lock-Keeps, require-Keeps, resolve_call-Keeps, Calm,
}
use vault_search_mcp.Crud.Ends.Reading.{
  error_result-fails, found_or-Keeps, resolve_path-Keeps, resolve_path-Ends,
  write_conflict_result-fails,
}
use vault_search_mcp.Crud.Ends.Moving.{move_or-Wrote}
use vault_search_mcp.Crud.Ends.Writing.{Keeps-Wrote, Ends-Wrote, Over, Wrote-bind}
use vault_search_mcp.Crud.Effects.Moves.{make_directory-Keeps}
use vault_search_mcp.Crud.Effects.{Effect, return-Effect, success_result-succeeds, Wrote}

-- A move of the file that the path leads to, onto the path that was looked at last, at which
-- nothing was then, and what it moved over.
abbrev pub Trashes : Env → Text → (Option File → Type 0) → List Look → Write → Type 0
Trashes env path T looks (relocated source target over) =
    ((files : Files) × (source ≡ env.resolved files (strip path)))
    × ((earlier : List Look) × (looks ≡ looked_at target false ∷ earlier))
    × T over
Trashes env path T looks (replaced file before text) = ⊥

-- The processes create no file in these events, but may change, move or remove files.
abbrev pub CreatesNothing : List Event → Type 0
CreatesNothing [] = Unit
CreatesNothing (e ∷ events) =
    ((files : Files) (path : String)
      → lookup path files ≡ none
      → lookup path (e.change files) ≡ none)
    × CreatesNothing events

-- The name was looked at last, and was free.
abbrev Free : List Write → Others → String → World → Type 0
Free ws rs name w =
    (earlier : List Look) × Calm ws rs (looked_at name false ∷ earlier) w
    × (lookup name w.files ≡ none)

abbrev FreeIf : List Write → Others → Option String → World → Type 0
FreeIf ws rs none w = w.writes ≡ ws
FreeIf ws rs (some name) w = Free ws rs name w

exists-Ends :
    {ws : List Write} {rs : Others} {ds : List Look} (path : String) (w : World)
    → Calm ws rs ds w
    → Ends ws
        (λ found w'.
          Calm ws rs (looked_at path found ∷ ds) w' × (is_some (lookup path w'.files) ≡ found))
        (exists path w)
unfolding exists
exists-Ends path w c = Keeps-Ends w call-Keeps c λ _ w c. record {
  holds = ((c.0, c.1, ap (◌∷◌ (looked_at path (is_some (lookup path w.files)))) c.2), refl);
}

try_name-Ends :
    {ws : List Write} {rs : Others} {ds : List Look} (name : String) (next : Io (Option String))
    (w : World) (taken : Bool)
    → Calm ws rs (looked_at name taken ∷ ds) w
    → is_some (lookup name w.files) ≡ taken
    → (Calm ws rs (looked_at name true ∷ ds) w → Ends ws (FreeIf ws rs) (next w))
    → Ends ws (FreeIf ws rs) ((if taken then next else pure (some name)) w)
try_name-Ends name next w true c e h = h c
try_name-Ends {ds = ds} name next w false c e h = record { holds = (ds, c, ground (arith, e)) }

free_name-Ends :
    {ws : List Write} {rs : Others} {ds : List Look} (n : ℕ) (name : String) (unique : ℕ → String)
    (w : World)
    → Calm ws rs ds w
    → Ends ws (FreeIf ws rs) (free_name n name unique w)
unfolding free_name
free_name-Ends zero name unique w c = record { holds = c.0 }
free_name-Ends (suc n) name unique w c = Ends-bind (exists name) (exists-Ends name w c) λ taken w c.
    try_name-Ends name (free_name n (unique n) unique) w taken c.0 c.1
      (λ c. free_name-Ends n (unique n) unique w c)

name_or-Ends :
    {ws : List Write} {rs : Others} (r : OperationResult) (name : Option String) (w : World)
    → r.success ≡ false
    → FreeIf ws rs name w
    → Ends ws (Free ws rs) (name_or r name w)
unfolding name_or
name_or-Ends r none w e h = record { holds = (h, e) }
name_or-Ends r (some name) w e h = record { holds = h }

none_at : revision_at none ≡ none
unfolding revision_at
none_at = refl

tail-CreatesNothing :
    (earlier rest : List Event) → CreatesNothing (earlier ++ rest) → CreatesNothing rest
tail-CreatesNothing [] rest h = h
tail-CreatesNothing (e ∷ earlier) rest h = tail-CreatesNothing earlier rest h.1

step-CreatesNothing :
    (es : List Event) (w : World) (path : String)
    → CreatesNothing es
    → lookup path w.files ≡ none
    → lookup path (step es w).0.files ≡ none
unfolding step
step-CreatesNothing [] w path h free = free
step-CreatesNothing (e ∷ es) w path h free = h.0 w.files path free

-- Nothing is at the path, before and after a look at a file.
module _ (ws : List Write) (rs : Others) (ds : List Look) (nothing : CreatesNothing rs.events)
    (path : String) where
  abbrev Spared : World → Type 0
  Spared w = Calm ws rs ds w × (lookup path w.files ≡ none)

  end_call-Spared :
      (fault : Fault) (stamp : FileRevision) (w : World)
      → Spared w
      → Ends ws (λ _. Spared) (end_call fault stamp w)
  unfolding end_call
  end_call-Spared fine stamp w h = record { holds = h }
  end_call-Spared outside stamp w h = record { holds = h }
  end_call-Spared failing stamp w h = record { holds = h.0.0 }

  file_revision-Spared :
      (file : String) (w : World) → Spared w → Ends ws (λ _. Spared) (file_revision file w)
  unfolding file_revision call
  file_revision-Spared file w (c, free) =
      let (earlier, p) = c.1.1 in
      Ends-bind call
        (end_call-Spared _ _ _ (
          step-Calm w.events w refl c,
          step-CreatesNothing w.events w path (tail-CreatesNothing earlier w.events (rw p nothing))
              free,
        ))
        (λ _ w' h. record { holds = h })

  bail_unless-Spared :
      (r : OperationResult) (b : Bool) (w : World)
      → r.success ≡ false
      → Spared w
      → Ends ws (λ _. Spared) (bail_unless r b w)
  unfolding bail_unless
  bail_unless-Spared r true w e h = record { holds = h }
  bail_unless-Spared r false w e h = record { holds = (h.0.0, e) }

module _ (ws : List Write) (rs : Others) (ds : List Look) (env : Env) where
  trash_target-Ends :
      (path trash : Text) (unique : ℕ → String) (w : World)
      → Calm ws rs ds w
      → Ends ws (Free ws rs) (trash_target env path trash unique w)
  unfolding trash_target resolve_internal_path
  trash_target-Ends path trash unique w c = Keeps-Ends w resolve_call-Keeps c λ _ w c.
      Keeps-Ends w make_directory-Keeps c λ _ w c.
        Keeps-Ends w (Keeps-bind resolve_call-Keeps λ _. record { run = λ w c. c }) c
          λ trash_path w c. Keeps-Ends w make_directory-Keeps c λ _ w c.
            Ends-bind (free_name 10 trash_path unique) (free_name-Ends 10 trash_path unique w c)
              λ free w h. name_or-Ends _ free w (error_result-fails path no_trash_name none) h

  -- One move, as `Trashes` says.
  abbrev Trashed : Text → String → World → Type 0
  Trashed path target w =
      (source : String) × (over : Option File) × (w.writes ≡ relocated source target over ∷ ws)
      × ((earlier : List Look) × (w.looks ≡ looked_at target false ∷ earlier))
      × ((files : Files) × (source ≡ env.resolved files (strip path)))
      × Over rs.races none over

  trash-Wrote :
      CreatesNothing rs.events
      → (path : Text) (file target : String) (revision : FileRevision) (earlier : List Look)
        (w : World)
      → Calm ws rs (looked_at target false ∷ earlier) w
      → lookup target w.files ≡ none
      → ((files : Files) × (file ≡ env.resolved files (strip path)))
      → Wrote ws (Trashed path) (
          (do
            now ← file_revision file
            _ ← bail_unless (write_conflict_result path) (same_found now (some revision))
            _ ← move_or (error_result path trash_failed none) file target
            pure target)
            w)
  trash-Wrote nothing path file target revision earlier w c free f =
      Ends-Wrote (file_revision file)
        (file_revision-Spared ws rs (looked_at target false ∷ earlier) nothing target file w
          (c, free))
        λ now w1 h1.
          Ends-Wrote (bail_unless (write_conflict_result path) (same_found now (some revision)))
            (bail_unless-Spared ws rs (looked_at target false ∷ earlier) nothing target
              (write_conflict_result path) (same_found now (some revision)) w1
              (write_conflict_result-fails path) h1)
            λ _ w2 h2.
              Wrote-bind (move_or (error_result path trash_failed none) file target)
                (move_or-Wrote ws rs (looked_at target false ∷ earlier) file target none
                  (error_result path trash_failed none) w2
                  (error_result-fails path trash_failed none) (h2.0, rw h2.1 none_at))
                λ _ w3 m. record {
                  holds =
                      (let (over, once, free, looks) = m in
                        (file, over, once, (earlier, looks), f, free));
                }

  delete_locked-Wrote :
      CreatesNothing rs.events
      → (path trash : Text) (unique : ℕ → String) (w : World) → Calm ws rs ds w
      → Wrote ws (Trashed path) (delete_locked env path trash unique w)
  unfolding delete_locked
  delete_locked-Wrote nothing path trash unique w c =
      Ends-Wrote (resolve_path env path) (resolve_path-Ends env path w c) λ file w1 (c1, f).
        Keeps-Wrote w1 (file_revision-Keeps file) c1 λ seen w2 c2.
          Keeps-Wrote w2 (found_or-Keeps _ seen (error_result-fails path note_not_found none)) c2
            λ revision w3 c3.
              Ends-Wrote (trash_target env path trash unique)
                (trash_target-Ends path trash unique w3 c3)
                λ target w4 (earlier, c4, free).
                  trash-Wrote nothing path file target revision earlier w4 c4 free f

module _ (env : Env) (w : World) where
  -- If other processes create no file between the calls, `delete_note` succeeds with one move of
  -- the file that the path leads to, onto the name that it looked at last, where nothing was then,
  -- and where nothing is when it moves, unless another process gets in right before the move; or it
  -- fails or raises, and moves nothing.
  pub delete_note-Effect :
      CreatesNothing w.events
      → (path trash : Text) (unique : ℕ → String)
      → Effect w (Trashes env path (Over w.races none)) (delete_note env path trash unique w)
  unfolding delete_note delete_body validate_extension validate_not_ignored_folder
  delete_note-Effect nothing path trash unique =
      return-Effect path w _ (delete_body env path trash unique) (
        Keeps-Wrote w (require-Keeps _) (refl, (refl, ([], refl)), refl)
          λ _ w1 c1. Keeps-Wrote w1 (require-Keeps _) c1 λ _ w2 c2.
            Keeps-Wrote w2 (resolve_path-Keeps env path) c2 λ f w3 c3.
              Keeps-Wrote w3 (lock-Keeps f) c3 λ _ w4 c4.
                Wrote-bind (delete_locked env path trash unique)
                  (delete_locked-Wrote w.writes (others w) w.looks env nothing path trash unique w4
                    c4)
                  λ target w5 m. record {
                    holds =
                        (let (source, over, once, looks, files, free) = m in
                          (
                            success_result-succeeds path (trashed target),
                            (relocated source target over, once, (files, looks, free)),
                          ));
                  })
