-- ===== src/Tests/Crud.antt =====
-- The operations of src/vault_search/crud on a vault with one note.
use vault_search_mcp.Prelude.{
  String, [], ◌∷◌, ◌≡◌, refl, true, false, none, some, ◌++◌, if◌then◌else◌, nat_beq, nat_eq,
  string_eq,
}
use vault_search_mcp.Prelude.Text.{Text, is_blank, is_space, lstrip, rstrip, strip}
use vault_search_mcp.Dict.{lookup, insert}
use vault_search_mcp.Crud.World.{
  World, Event, File, error_result, fine, null, replaced, require, success_result, ◌>>=◌,
  Frontmatter, string,
}
use vault_search_mcp.Crud.Calls.{
  advisory_path_lock, call, call_now, end_call, end_resolve, file_revision, lock_next, resolve_call,
  return_write_lock_timeout, revision_at, step, step_now, timeout_result,
}
use vault_search_mcp.Crud.Env.{
  Env, add_width, any_member, at_most, has_zero, is_clean, is_member, resolve_internal_path,
  resolve_path, serialize_frontmatter, starts_absolute, utf8_size, utf8_width, validate_content,
  validate_content_size, validate_extension, validate_fields, validate_for_write,
  validate_frontmatter_size, validate_markdown_only, validate_not_ignored_folder,
  validate_relative_path,
}
use vault_search_mcp.Crud.Files.{
  newline, universal_newlines, safe_write_text, check_unchanged, decode, mode_of, previous_mode,
  put_file, race, read_checked, read_failure, read_text, replace, safe_read_text, set_mode,
  write_body, write_failure, write_temp,
}
use vault_search_mcp.Crud.Write.{
  write_note, append_note, create_note, append_body, appended_text, bail_unless, ends_with,
  found_or, is_none, make_parents, read_stable, same_text, with_id, write_conflict_result,
  write_note_body,
}
use vault_search_mcp.Crud.Frontmatter.{update_frontmatter, ensure_note_id, merged}
use vault_search_mcp.Crud.Delete.{delete_note, move_note}
use vault_search_mcp.Crud.Effects.{Effect, Replaces, Rewrites, write_note-Effect}
use vault_search_mcp.Crud.Effects.Update.{update_frontmatter-Effect, new_frontmatter}
use vault_search_mcp.Crud.Effects.EnsureId.{GivesId, ensure_note_id-Flagged}
use vault_search_mcp.Crud.Effects.Flagged.{Flagged}
use vault_search_mcp.Crud.Effects.Unraced.{
  create_note_unraced, move_note_unraced, delete_note_unraced,
}
use vault_search_mcp.Crud.Enrich.{
  missing_fields, select_fields, is_empty_value, is_field_missing_or_empty, is_missing_value,
  enrich_note_frontmatter_required, generated,
}
use vault_search_mcp.Crud.Effects.Enriching.{Enriches, lookup-enriched, enrich_note-Flagged}
use vault_search_mcp.Crud.Effects.Moves.{Moves}
use vault_search_mcp.Crud.Effects.Trash.{Trashes}

program : Unit {0}
unfolding ◌>>=◌ require success_result error_result step end_call call step_now call_now end_resolve
    resolve_call revision_at file_revision lock_next advisory_path_lock timeout_result
    return_write_lock_timeout newline universal_newlines decode read_text read_failure read_checked
    safe_read_text race put_file replace mode_of previous_mode write_temp set_mode check_unchanged
    write_body write_failure safe_write_text is_member utf8_width add_width utf8_size at_most
    has_zero is_clean starts_absolute any_member validate_relative_path validate_content_size
    validate_frontmatter_size validate_extension validate_markdown_only validate_not_ignored_folder
    resolve_internal_path resolve_path validate_content validate_fields validate_for_write
    serialize_frontmatter same_text ends_with appended_text make_parents found_or
    write_conflict_result bail_unless read_stable is_none append_body append_note write_note_body
    write_note lookup insert is_blank strip lstrip rstrip is_space
program = tt

abbrev a_md : Text
a_md = b'a' ∷ b'.' ∷ b'm' ∷ b'd' ∷ []

abbrev b_md : Text
b_md = b'b' ∷ b'.' ∷ b'm' ∷ b'd' ∷ []

-- A path leads to the file of its first letter.
abbrev file_of : Text → String
file_of [] = "root"
file_of (c ∷ t) = if nat_beq c b'a' then "a.md" else "b.md"

abbrev env : Env
env = record {
  max_content_size = 100;
  max_path_length = 10;
  max_frontmatter_keys = 5;
  ignored_folders = ".trash" ∷ [];
  indexable_extensions = ".md" ∷ [];
  suffix_lower = λ p. ".md";
  parts = λ p. file_of p ∷ [];
  stays_inside = λ p. true;
  resolved = λ files p. file_of p;
  yaml_dump = λ fields. [];
  parse_frontmatter = λ t. ([], t);
  validate = λ fields. record {
    valid = true;
    validated_data = fields;
    errors = [];
    warnings = [];
    suggestions = [];
  };
  schema_enabled = false;
  required_fields = [];
  ai_enabled = false;
  allow_external_processing = false;
  ai_provider = none;
  has_ai_command = false;
  allow_defer_required_on_create = false;
}

abbrev old : File
old = record { revision = record { inode = 1; mtime_ns = 2; size = 3 }; text = some (b'x' ∷ []) }

abbrev vault : World
vault = record {
  files = ("a.md", old) ∷ [];
  events = [];
  races = [];
  locks = [];
  writes = [];
  looks = [];
  ignored = [];
}

-- Nobody else is there: the content is appended behind the separator.
append_alone :
    (append_note env a_md (b'y' ∷ []) (b' ' ∷ []) vault).0.writes
    ≡ replaced "a.md" (some old) (b'x' ∷ b' ' ∷ b'y' ∷ []) ∷ []
unfolding program
append_alone = refl

-- Another process changes the note while it is read, and nothing is written.
abbrev changes : Event
changes = record {
  change = λ files.
      ("a.md", record { revision = record { inode = 9; mtime_ns = 9; size = 9 }; text = some [] })
      ∷ [];
  fault = fine;
  stamp = old.revision;
}

abbrev calm : Event
calm = record { change = λ files. files; fault = fine; stamp = old.revision }

abbrev busy : World
busy = record vault { events = calm ∷ calm ∷ calm ∷ calm ∷ changes ∷ [] }

append_conflict : (append_note env a_md (b'y' ∷ []) (b' ' ∷ []) busy).0.writes ≡ []
unfolding program
append_conflict = refl

write_note-Effect_example :
    Effect vault (Replaces (λ _ t. t ≡ b'z' ∷ [])) (write_note env a_md (b'z' ∷ []) vault)
write_note-Effect_example = write_note-Effect env a_md vault (b'z' ∷ [])

create_note_unraced_example :
    Effect vault
      (Replaces (λ before t.
        (before ≡ none) × (t ≡ serialize_frontmatter env (with_id env null []) ++ b'z' ∷ [])))
      (create_note env null b_md (b'z' ∷ []) [] true vault)
create_note_unraced_example = create_note_unraced env vault refl b_md null (b'z' ∷ []) [] true

update_frontmatter-Effect_example :
    Effect vault
      (Rewrites [] (λ content t.
        t ≡ serialize_frontmatter env (new_frontmatter env [] true false []) ++ content))
      (update_frontmatter env a_md [] true false vault)
update_frontmatter-Effect_example = update_frontmatter-Effect env a_md vault [] true false

move_note_unraced_example :
    Effect vault (Moves (λ over. over ≡ none)) (move_note env a_md b_md vault)
move_note_unraced_example = move_note_unraced env vault refl a_md b_md

delete_note_unraced_example :
    Effect vault
      (Trashes env a_md (λ over. over ≡ none))
      (delete_note env a_md b_md (λ n. "c.md") vault)
delete_note_unraced_example = delete_note_unraced env vault refl tt a_md b_md (λ n. "c.md")

ensure_note_id-Flagged_example :
    Flagged
      (λ r. r.id_was_added)
      vault
      (GivesId env true null [])
      (ensure_note_id env true null a_md vault)
ensure_note_id-Flagged_example = ensure_note_id-Flagged env a_md vault null true

-- The note's line ends with CR LF.
abbrev crlf : World
crlf = record vault { files = ("a.md", record old { text = some (b'x' ∷ 13 ∷ 10 ∷ []) }) ∷ [] }

abbrev disk : Frontmatter
disk = ("title", string (b't' ∷ [])) ∷ ("tags", null) ∷ []

abbrev provided : Frontmatter
provided = ("title", string (b'u' ∷ [])) ∷ ("tags", string (b'v' ∷ [])) ∷ []

lookup-enriched_example :
    lookup "title"
      (merged disk (select_fields (missing_fields disk ("title" ∷ "tags" ∷ [])) provided))
    ≡ some (string (b't' ∷ []))
unfolding lookup is_field_missing_or_empty is_missing_value is_empty_value is_blank strip lstrip
    rstrip is_space
lookup-enriched_example = lookup-enriched "title" disk provided ("title" ∷ "tags" ∷ []) refl

enrich_note-Flagged_example :
    Flagged
      (λ r. r.enriched)
      vault
      (Enriches env (λ body fields names. generated provided) true [])
      (enrich_note_frontmatter_required env
        (λ body fields names. generated provided)
        true
        a_md
        vault)
enrich_note-Flagged_example =
    enrich_note-Flagged env a_md vault (λ body fields names. generated provided) true
