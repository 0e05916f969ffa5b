-- ===== src/Crud/Files.antt =====
-- `safe_read_text` and `safe_write_text` of src/vault_search/crud/validation.py. The temporary file
-- of a write and its recovery are left out: they change no note.
use vault_search_mcp.Prelude.{
  ℕ, nat_beq, ◌&&◌, ◌++◌, String, Option, Bool, [], ◌∷◌, List, false, if◌then◌else◌, is_some, none,
  some, true, nat_eq, string_eq,
}
use vault_search_mcp.Prelude.Result.{os_error, unicode_decode_error, value_error}
use vault_search_mcp.Prelude.Text.{Text}
use vault_search_mcp.Dict.{lookup, insert}
use vault_search_mcp.Crud.Env.{utf8_size}
use vault_search_mcp.Crud.World.{
  World, read_as, File, FileRevision, Files, Io, Outcome, bail, error_result, outside_vault, pure,
  raised, read_failed, replaced, returned, same_found, value, write_conflict, write_failed, require,
  ◌>>=◌,
}
use vault_search_mcp.Crud.Calls.{call, file_revision, resolve_call, call_now}

-- The universal newlines of a file in text mode: CR LF and CR are read as LF. The flag says whether
-- a CR came just before.
unfoldable pub newline : Bool → ℕ → Text
newline after_cr c =
    if nat_beq c 13 then 10 ∷ [] else if nat_beq c 10 && after_cr then [] else c ∷ []

unfoldable pub universal_newlines : Bool → Text → Text
unfolding newline
universal_newlines after_cr [] = []
universal_newlines after_cr (c ∷ text) =
    newline after_cr c ++ universal_newlines (nat_beq c 13) text

-- `file_path.read_text(encoding="utf-8")`
unfoldable pub decode : String → Option File → World → World × Outcome Text
unfolding universal_newlines
decode path none w = (w, raised os_error)
decode path (some file) w = elim file.text [
  | none ↦ (w, raised unicode_decode_error)
  | some raw ↦
      let text = universal_newlines false raw in
      (record w { looks = read_as path text ∷ w.looks }, value text)
]

unfoldable pub read_text : String → Io Text
unfolding call decode
read_text path = do _ ← call; λ w. decode path (lookup path w.files) w

-- The `except` clauses: a UnicodeDecodeError is a ValueError, and is caught as one.
unfoldable pub read_failure : Text → World → Outcome Text → World × Outcome Text
unfolding error_result
read_failure path w (raised os_error) = (w, returned (error_result path read_failed none))
read_failure path w (raised value_error) = (w, returned (error_result path outside_vault none))
read_failure path w (raised unicode_decode_error) =
    (w, returned (error_result path outside_vault none))
read_failure path w (raised e) = (w, raised e)
read_failure path w (returned r) = (w, returned r)
read_failure path w (value text) = (w, value text)

unfoldable pub read_checked : String → Io Text
unfolding resolve_call read_text
read_checked file = do _ ← resolve_call; read_text file

-- An error is returned by every caller at once.
unfoldable pub safe_read_text : String → Text → Io Text
unfolding read_checked read_failure
safe_read_text file path w = read_failure path (read_checked file w).0 (read_checked file w).1

-- The changes that fall between the check of the revision and the replacement.
unfoldable pub race : List (Files → Files) → World → World
race [] w = w
race (change ∷ races) w = record w { races = races; files = change w.files }

-- `os.replace(temp_path, file_path)`
unfoldable pub put_file : String → Text → FileRevision → World → World
put_file file content stamp w = record w {
  files = insert file (record { revision = stamp; text = some content }) w.files;
  writes = replaced file (lookup file w.files) content ∷ w.writes;
}

unfoldable pub replace : String → Text → Io Unit
unfolding race call_now put_file
replace file content = do
  _ ← λ w. (race w.races w, value tt)
  stamp ← call_now
  λ w. (put_file file content stamp w, value tt)

-- The mode of the file that is there, if any: `exists`, `resolve` and `stat`.
unfoldable pub mode_of : Bool → Io Bool
unfolding resolve_call call
mode_of false = pure false
mode_of true = do _ ← resolve_call; _ ← call; pure true

unfoldable pub previous_mode : String → Io Bool
unfolding call mode_of
previous_mode file = do
  _ ← call
  found ← λ w. (w, value (is_some (lookup file w.files)))
  mode_of found

unfoldable pub check_unchanged : Bool → String → Option FileRevision → Text → Io Unit
unfolding file_revision error_result
check_unchanged false file expected path = pure tt
check_unchanged true file expected path = do
  now ← file_revision file
  if same_found now expected then pure tt else bail (error_result path write_conflict none)

-- The temporary file is written; a surrogate cannot be encoded, which is a ValueError.
unfoldable pub write_temp : Text → Io Unit
unfolding require utf8_size call
write_temp content = do _ ← require (is_some (utf8_size content)); _ ← call; pure tt

unfoldable pub set_mode : Bool → Io Unit
unfolding call
set_mode false = pure tt
set_mode true = do _ ← call; pure tt

unfoldable pub write_body : Bool → String → Text → Option FileRevision → Text → Io Unit
unfolding resolve_call previous_mode write_temp set_mode check_unchanged replace
write_body check_revision file content expected path = do
  _ ← resolve_call
  had_mode ← previous_mode file
  _ ← write_temp content
  _ ← set_mode had_mode
  _ ← check_unchanged check_revision file expected path
  replace file content

unfoldable pub write_failure : Text → World → Outcome Unit → World × Outcome Unit
unfolding error_result
write_failure path w (raised os_error) = (w, returned (error_result path write_failed none))
write_failure path w (raised value_error) = (w, returned (error_result path outside_vault none))
write_failure path w (raised e) = (w, raised e)
write_failure path w (returned r) = (w, returned r)
write_failure path w (value u) = (w, value u)

-- An error is returned by every caller at once.
unfoldable pub safe_write_text : Bool → String → Text → Option FileRevision → Text → Io Unit
unfolding write_body write_failure
safe_write_text check_revision file content expected path w =
    let done = write_body check_revision file content expected path w in
    write_failure path done.0 done.1
