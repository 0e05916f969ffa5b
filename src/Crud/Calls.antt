-- ===== src/Crud/Calls.antt =====
-- The calls of the file system, each with what other processes did before it; `file_revision` and
-- the locks of src/vault_search/crud/locking.py.
use vault_search_mcp.Prelude.{List, String, Option, [], none, some, ◌∷◌, nat_eq, string_eq}
use vault_search_mcp.Prelude.Result.{os_error, value_error, write_lock_timeout}
use vault_search_mcp.Prelude.Text.{Text}
use vault_search_mcp.Dict.{lookup}
use vault_search_mcp.Crud.World.{
  World, ◌>>=◌, Event, Fault, File, FileRevision, Io, LockOutcome, OperationResult, Outcome,
  acquired, error_result, failing, fine, lock_failed, lock_outside, lock_timeout, outside, raised,
  returned, timed_out, value,
}

-- An event in which nothing happens.
abbrev pub quiet : Event
quiet = record {
  change = λ files. files;
  fault = fine;
  stamp = record { inode = 0; mtime_ns = 0; size = 0 };
}

-- The next call, with the others' changes done.
unfoldable pub step : List Event → World → World × Event
step [] w = (w, quiet)
step (e ∷ events) w = (record w { events = events; files = e.change w.files }, e)

unfoldable pub end_call : Fault → FileRevision → World → World × Outcome FileRevision
end_call failing stamp w = (w, raised os_error)
end_call fine stamp w = (w, value stamp)
end_call outside stamp w = (w, value stamp)

-- A call that may fail with an OSError; its value is the stamp of what it writes.
unfoldable pub call : Io FileRevision
unfolding end_call step
call w = let (after, e) = step w.events w in end_call e.fault e.stamp after

-- A call at the end of a race, whose changes are already done.
unfoldable pub step_now : List Event → World → World × Event
step_now [] w = (w, quiet)
step_now (e ∷ events) w = (record w { events = events }, e)

unfoldable pub call_now : Io FileRevision
unfolding end_call step_now
call_now w = let (after, e) = step_now w.events w in end_call e.fault e.stamp after

unfoldable pub end_resolve : Fault → World → World × Outcome Unit
end_resolve failing w = (w, raised os_error)
end_resolve outside w = (w, raised value_error)
end_resolve fine w = (w, value tt)

-- A call that resolves a path and looks whether it lies in the vault.
unfoldable pub resolve_call : Io Unit
unfolding end_resolve step
resolve_call w = let (after, e) = step w.events w in end_resolve e.fault after

unfoldable pub revision_at : Option File → Option FileRevision
revision_at none = none
revision_at (some file) = some file.revision

-- `file_revision` of locking.py: None if there is no file; any other error of `stat` is raised.
unfoldable pub file_revision : String → Io (Option FileRevision)
unfolding call revision_at
file_revision path = do _ ← call; λ w. (w, value (revision_at (lookup path w.files)))

-- `advisory_path_lock` around a block: while it is held, the others are processes that do not take
-- the lock.
unfoldable pub lock_next : List LockOutcome → World → World × Outcome Unit
lock_next [] w = (w, value tt)
lock_next (o ∷ locks) w =
    let after = record w { locks = locks } in
    elim o [
      | acquired ↦ (after, value tt)
      | timed_out ↦ (after, raised write_lock_timeout)
      | lock_outside ↦ (after, raised value_error)
      | lock_failed ↦ (after, raised os_error)
    ]

unfoldable pub advisory_path_lock : String → Io Unit
unfolding lock_next
advisory_path_lock path w = lock_next w.locks w

-- `return_write_lock_timeout`, around a whole operation.
unfoldable pub timeout_result :
    Text → World → Outcome OperationResult → World × Outcome OperationResult
unfolding error_result
timeout_result path w (raised write_lock_timeout) =
    (w, value (error_result path lock_timeout (some "write_lock_timeout")))
timeout_result path w (raised e) = (w, raised e)
timeout_result path w (returned r) = (w, value r)
timeout_result path w (value r) = (w, value r)

unfoldable pub return_write_lock_timeout : Text → Io OperationResult → Io OperationResult
unfolding timeout_result
return_write_lock_timeout path operation w = timeout_result path (operation w).0 (operation w).1
