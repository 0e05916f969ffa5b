-- ===== src/Crud/Effects/Moves.antt =====
-- What `move_note` does to the notes.
use vault_search_mcp.Prelude.{
  [], List, String, Option, Bool, ◌∷◌, ◌≡◌, refl, true, false, arith, if◌then◌else◌, none, some,
  ◌==◌, ◌∙◌, nat_eq, string_eq,
}
use vault_search_mcp.Prelude.Text.{Text}
use vault_search_mcp.Crud.World.{
  Look, World, ◌>>=◌, File, FileRevision, OperationResult, Write, destination_exists, error_result,
  extension_changed, move_failed, moved, relocated, replaced, same_found, source_not_found,
}
use vault_search_mcp.Crud.Calls.{advisory_path_lock, file_revision}
use vault_search_mcp.Crud.Env.{Env, validate_extension, validate_not_ignored_folder}
use vault_search_mcp.Crud.Write.{bail_unless, is_none, write_conflict_result}
use vault_search_mcp.Crud.Delete.{
  move_note, advisory_path_locks, make_directory, move_body, move_locked, move_unseen,
}
use vault_search_mcp.Crud.Ends.{
  Others, others, Ends, Keeps-bind, bail_unless-Keeps, call-Keeps, file_revision-Ends,
  file_revision-Keeps, lock-Keeps, require-Keeps, Calm,
}
use vault_search_mcp.Crud.Ends.Reading.{
  error_result-fails, found_or-Keeps, resolve_path-Keeps, write_conflict_result-fails,
}
use vault_search_mcp.Crud.Ends.Moving.{move_or-Wrote}
use vault_search_mcp.Crud.Ends.Writing.{
  Keeps-Wrote, Ends-Wrote, Expected, Over, Wrote-bind, Wrote-map,
}
use vault_search_mcp.Crud.Effects.{Effect, return-Effect, success_result-succeeds, Wrote, Keeps}

-- A move, and what it moved over.
abbrev pub Moves : (Option File → Type 0) → List Look → Write → Type 0
Moves T looks (relocated source target over) = T over
Moves T looks (replaced file before text) = ⊥

none_found : (seen : Option FileRevision) → is_none seen ≡ true → seen ≡ none
unfolding is_none
none_found none h = refl
none_found (some r) h = ground arith

locks-Keeps :
    {ws : List Write} {rs : Others} {ds : List Look} (first second : String) (b : Bool)
    → Keeps ws rs ds (
        if b
        then advisory_path_lock first
        else (advisory_path_lock first >>= λ _. advisory_path_lock second))
locks-Keeps first second true = lock-Keeps first
locks-Keeps first second false = Keeps-bind (lock-Keeps first) λ _. lock-Keeps second

pub make_directory-Keeps :
    {ws : List Write} {rs : Others} {ds : List Look} → Keeps ws rs ds make_directory
unfolding make_directory
make_directory-Keeps = Keeps-bind call-Keeps λ _. record { run = λ w c. c }

unless-Ends :
    {ws : List Write} {rs : Others} {ds : List Look} (r : OperationResult) (target : String)
    (seen : Option FileRevision) (w : World) (b : Bool)
    → is_none seen ≡ b
    → r.success ≡ false
    → Expected ws rs ds target seen w
    → Ends ws (λ _ w'. Expected ws rs ds target none w') (bail_unless r b w)
unfolding bail_unless
unless-Ends r target seen w true e f h = record { holds = (h.0, h.1 ∙ none_found seen e) }
unless-Ends r target seen w false e f h = record { holds = (h.0.0, f) }

-- One move, and what it moved over.
abbrev pub MovedOnce : List Write → Others → Option FileRevision → World → Type 0
MovedOnce ws rs expected w =
    (source target : String) × (over : Option File) × (w.writes ≡ relocated source target over ∷ ws)
    × Over rs.races expected over

module _ (ws : List Write) (rs : Others) (ds : List Look) (env : Env) where
  move_unseen-Wrote :
      (from_path : Text) (from_file to_file : String) (w : World)
      → Calm ws rs ds w
      → Wrote ws (λ _ w'. MovedOnce ws rs none w') (move_unseen env from_path from_file to_file w)
  unfolding move_unseen
  move_unseen-Wrote from_path from_file to_file w c =
      let conflict = write_conflict_result from_path in
      Ends-Wrote (file_revision to_file) (file_revision-Ends to_file w c) λ last w1 h.
        Ends-Wrote (bail_unless conflict (is_none last))
          (unless-Ends conflict to_file last w1 (is_none last) refl
            (write_conflict_result-fails from_path) h)
          λ _ w2 h.
            Wrote-map
              (move_or-Wrote ws rs ds from_file to_file none
                (error_result from_path move_failed none) w2
                (error_result-fails from_path move_failed none) h)
              λ _ w3 m.
                (let (over, once, free, looks) = m in (from_file, to_file, over, once, free))

  move_locked-Wrote :
      (from_path to_path : Text) (w : World)
      → Calm ws rs ds w
      → Wrote ws (λ _ w'. MovedOnce ws rs none w') (move_locked env from_path to_path w)
  unfolding move_locked
  move_locked-Wrote from_path to_path w c =
      Keeps-Wrote w (resolve_path-Keeps env from_path) c λ from_file w1 c1.
        Keeps-Wrote w1 (resolve_path-Keeps env to_path) c1 λ to_file w2 c2.
          Keeps-Wrote w2 (file_revision-Keeps from_file) c2 λ seen w3 c3.
            Keeps-Wrote w3
              (found_or-Keeps _ seen (error_result-fails from_path source_not_found none)) c3
              λ revision w4 c4. Keeps-Wrote w4 (file_revision-Keeps to_file) c4 λ taken w5 c5.
                Keeps-Wrote w5
                  (bail_unless-Keeps _ (is_none taken)
                    (error_result-fails to_path destination_exists none))
                  c5
                  λ _ w6 c6. Keeps-Wrote w6 make_directory-Keeps c6 λ _ w7 c7.
                    Keeps-Wrote w7 (file_revision-Keeps from_file) c7 λ now w8 c8.
                      Keeps-Wrote w8
                        (bail_unless-Keeps _ (same_found now (some revision))
                          (write_conflict_result-fails from_path))
                        c8 λ _ w9 c9. move_unseen-Wrote from_path from_file to_file w9 c9

module _ (env : Env) (w : World) where
  -- `move_note` succeeds with one move, onto a path where nothing is unless another process gets in
  -- between the last look and the move; or it fails or raises, and moves nothing.
  pub move_note-Effect :
      (from_path to_path : Text)
      → Effect w (Moves (Over w.races none)) (move_note env from_path to_path w)
  unfolding move_note move_body validate_extension validate_not_ignored_folder advisory_path_locks
  move_note-Effect from_path to_path =
      return-Effect from_path w _ (move_body env from_path to_path) (
        Keeps-Wrote w (require-Keeps _) (refl, (refl, ([], refl)), refl)
          λ _ w1 c1. Keeps-Wrote w1 (require-Keeps _) c1 λ _ w2 c2.
            Keeps-Wrote w2 (require-Keeps _) c2 λ _ w3 c3.
              Keeps-Wrote w3 (require-Keeps _) c3 λ _ w4 c4.
                Keeps-Wrote w4
                  (bail_unless-Keeps _ _ (error_result-fails from_path extension_changed none)) c4
                  λ _ w5 c5. Keeps-Wrote w5 (resolve_path-Keeps env from_path) c5 λ f1 w6 c6.
                    Keeps-Wrote w6 (resolve_path-Keeps env to_path) c6 λ t1 w7 c7.
                      Keeps-Wrote w7 (locks-Keeps f1 t1 (f1 == t1)) c7 λ _ w8 c8.
                        Wrote-bind (move_locked env from_path to_path)
                          (move_locked-Wrote w.writes (others w) w.looks env from_path to_path w8
                            c8)
                          λ _ w9 m. record {
                            holds =
                                (let (source, target, over, once, free) = m in
                                  (
                                    success_result-succeeds to_path moved,
                                    (relocated source target over, once, free),
                                  ));
                          })
