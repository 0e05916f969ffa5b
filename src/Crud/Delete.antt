-- ===== src/Crud/Delete.antt =====
-- `delete_note` and `move_note` of src/vault_search/crud/delete.py.
use vault_search_mcp.Prelude.{
  ℕ, String, Option, Bool, ◌∷◌, false, if◌then◌else◌, is_some, none, some, suc, zero, ◌==◌, nat_eq,
  string_eq,
}
use vault_search_mcp.Prelude.Result.{os_error}
use vault_search_mcp.Prelude.Text.{Text}
use vault_search_mcp.Dict.{insert, lookup, remove}
use vault_search_mcp.Crud.World.{
  World, looked_at, File, Io, OperationResult, Outcome, bail, destination_exists, error_result,
  extension_changed, move_failed, moved, no_trash_name, note_not_found, pure, raised, relocated,
  returned, same_found, source_not_found, success_result, trash_failed, trashed, value, ◌>>=◌,
}
use vault_search_mcp.Crud.Calls.{
  advisory_path_lock, call, file_revision, resolve_call, return_write_lock_timeout, call_now,
}
use vault_search_mcp.Crud.Env.{
  Env, resolve_internal_path, resolve_path, validate_extension, validate_not_ignored_folder,
}
use vault_search_mcp.Crud.Files.{race}
use vault_search_mcp.Crud.Write.{bail_unless, found_or, is_none, write_conflict_result}

-- `shutil.move` within the vault: a rename, which replaces what is at the target. A source that is
-- gone raises.
unfoldable pub move_found : String → String → Option File → World → World × Outcome Unit
move_found source target none w = (w, raised os_error)
move_found source target (some file) w = (
  record w {
    files = insert target file (remove source w.files);
    writes = relocated source target (lookup target w.files) ∷ w.writes;
  },
  value tt,
)

unfoldable pub move_file : String → String → Io Unit
unfolding race call_now move_found
move_file source target = do
  _ ← λ w. (race w.races w, value tt)
  _ ← call_now
  λ w. move_found source target (lookup source w.files) w

-- `except (OSError, shutil.Error)`
unfoldable pub move_failure : OperationResult → World → Outcome Unit → World × Outcome Unit
move_failure r w (raised os_error) = (w, returned r)
move_failure r w (raised e) = (w, raised e)
move_failure r w (returned s) = (w, returned s)
move_failure r w (value u) = (w, value u)

unfoldable pub move_or : OperationResult → String → String → Io Unit
unfolding move_file move_failure
move_or r source target w = let done = move_file source target w in move_failure r done.0 done.1

unfoldable pub exists : String → Io Bool
unfolding call
exists path = do
  _ ← call
  λ w.
      let found = is_some (lookup path w.files) in
      (record w { looks = looked_at path found ∷ w.looks }, value found)

-- The loop of ten attempts over the names for the trash: the path itself, and then a new unique
-- name for each one taken. The last name is drawn but not tried.
unfoldable pub free_name : ℕ → String → (ℕ → String) → Io (Option String)
unfolding exists
free_name zero name unique = pure none
free_name (suc left) name unique = do
  taken ← exists name
  if taken then free_name left (unique left) unique else pure (some name)

unfoldable pub name_or : OperationResult → Option String → Io String
name_or r none = bail r
name_or r (some name) = pure name

unfoldable pub make_directory : Io Unit
unfolding call
make_directory = do _ ← call; pure tt

module _ (env : Env) where
  -- The block under the lock, up to the name for the trash. `trash` is the path of the note below
  -- `.trash`; `unique` gives the stems with eight digits of a `uuid4` each, by the attempts that
  -- are left.
  unfoldable pub trash_target : Text → Text → (ℕ → String) → Io String
  unfolding error_result resolve_internal_path make_directory free_name name_or
  trash_target path trash unique = do
    _ ← resolve_call
    _ ← make_directory
    trash_path ← resolve_internal_path env trash
    _ ← make_directory
    free ← free_name 10 trash_path unique
    name_or (error_result path no_trash_name none) free

  unfoldable pub delete_locked : Text → Text → (ℕ → String) → Io String
  unfolding resolve_path file_revision found_or error_result trash_target bail_unless
      write_conflict_result move_or
  delete_locked path trash unique = do
    file ← resolve_path env path
    seen ← file_revision file
    revision ← found_or (error_result path note_not_found none) seen
    target ← trash_target path trash unique
    now ← file_revision file
    _ ← bail_unless (write_conflict_result path) (same_found now (some revision))
    _ ← move_or (error_result path trash_failed none) file target
    pure target

  unfoldable pub delete_body : Text → Text → (ℕ → String) → Io OperationResult
  unfolding validate_extension validate_not_ignored_folder resolve_path advisory_path_lock
      delete_locked success_result
  delete_body path trash unique = do
    _ ← validate_extension env path false
    _ ← validate_not_ignored_folder env path
    file ← resolve_path env path
    _ ← advisory_path_lock file
    target ← delete_locked path trash unique
    pure (success_result path (trashed target))

  unfoldable pub delete_note : Text → Text → (ℕ → String) → Io OperationResult
  unfolding return_write_lock_timeout delete_body
  delete_note path trash unique = return_write_lock_timeout path (delete_body path trash unique)

  -- One lock for each path, sorted by name; as the outcome of each is given, the order makes no
  -- difference here.
  unfoldable pub advisory_path_locks : String → String → Io Unit
  unfolding advisory_path_lock
  advisory_path_locks first second =
      if first == second
      then advisory_path_lock first
      else (do _ ← advisory_path_lock first; advisory_path_lock second)

  -- The last look at the target, and the move.
  unfoldable pub move_unseen : Text → String → String → Io Unit
  unfolding file_revision bail_unless write_conflict_result is_none move_or error_result
  move_unseen from_path from_file to_file = do
    taken_now ← file_revision to_file
    _ ← bail_unless (write_conflict_result from_path) (is_none taken_now)
    move_or (error_result from_path move_failed none) from_file to_file

  -- The block under the locks.
  unfoldable pub move_locked : Text → Text → Io Unit
  unfolding resolve_path file_revision found_or error_result bail_unless is_none make_directory
      write_conflict_result move_unseen
  move_locked from_path to_path = do
    from_file ← resolve_path env from_path
    to_file ← resolve_path env to_path
    seen ← file_revision from_file
    source_revision ← found_or (error_result from_path source_not_found none) seen
    taken ← file_revision to_file
    _ ← bail_unless (error_result to_path destination_exists none) (is_none taken)
    _ ← make_directory
    now ← file_revision from_file
    _ ← bail_unless (write_conflict_result from_path) (same_found now (some source_revision))
    move_unseen from_path from_file to_file

  unfoldable pub move_body : Text → Text → Io OperationResult
  unfolding validate_extension validate_not_ignored_folder bail_unless error_result resolve_path
      advisory_path_locks move_locked success_result
  move_body from_path to_path = do
    _ ← validate_extension env from_path false
    _ ← validate_extension env to_path false
    _ ← validate_not_ignored_folder env to_path
    _ ← validate_not_ignored_folder env from_path
    _ ←
        bail_unless (error_result from_path extension_changed none)
          (env.suffix_lower from_path == env.suffix_lower to_path)
    from_file ← resolve_path env from_path
    to_file ← resolve_path env to_path
    _ ← advisory_path_locks from_file to_file
    _ ← move_locked from_path to_path
    pure (success_result to_path moved)

  unfoldable pub move_note : Text → Text → Io OperationResult
  unfolding return_write_lock_timeout move_body
  move_note from_path to_path = return_write_lock_timeout from_path (move_body from_path to_path)
