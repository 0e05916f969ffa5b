-- ===== src/Crud/Write.antt =====
-- `create_note`, `write_note` and `append_note` of src/vault_search/crud/write.py.
use vault_search_mcp.Prelude.{
  String, Option, Bool, [], ◌∷◌, List, drop, false, if◌then◌else◌, leb, length, nat_beq, none, not,
  some, true, ◌&&◌, ◌++◌, ◌-◌, ◌==◌, ◌||◌, nat_eq, string_eq,
}
use vault_search_mcp.Prelude.Text.{Text, is_blank, strip}
use vault_search_mcp.Dict.{insert, contains}
use vault_search_mcp.Crud.World.{
  FileRevision, Frontmatter, Io, Issue, OperationResult, Value, already_exists, appended, bail,
  created, error_result, note_not_found, pure, same_found, success_result, updated,
  validation_failed, write_conflict, ◌>>=◌,
}
use vault_search_mcp.Crud.Calls.{advisory_path_lock, call, file_revision, return_write_lock_timeout}
use vault_search_mcp.Crud.Env.{
  Env, serialize_frontmatter, validate_content_size, validate_for_write,
}
use vault_search_mcp.Crud.Files.{safe_read_text, safe_write_text}

-- `str.endswith`
unfoldable pub same_text : Text → Text → Bool
same_text [] [] = true
same_text (a ∷ s) (b ∷ t) = nat_beq a b && same_text s t
same_text _ _ = false

unfoldable pub ends_with : Text → Text → Bool
unfolding same_text
ends_with suffix text =
    leb (length suffix) (length text) && same_text suffix (drop (length text - length suffix) text)

-- What `append_note` writes.
unfoldable pub appended_text : Text → Text → Text → Text
unfolding ends_with
appended_text existing separator content =
    if ends_with separator existing then existing ++ content else existing ++ separator ++ content

-- `mkdir(parents=True, exist_ok=True)`
unfoldable pub make_parents : Io Unit
unfolding call
make_parents = do _ ← call; pure tt

-- The file and its revision, which has to be there.
unfoldable pub found_or : OperationResult → Option FileRevision → Io FileRevision
found_or r none = bail r
found_or r (some revision) = pure revision

unfoldable pub write_conflict_result : Text → OperationResult
unfolding error_result
write_conflict_result path = error_result path write_conflict (some "write_conflict")

unfoldable pub bail_unless : OperationResult → Bool → Io Unit
bail_unless r false = bail r
bail_unless r true = pure tt

-- Reads the text of a revision that is there before and after.
unfoldable pub read_stable : String → Text → Io (FileRevision × Text)
unfolding file_revision found_or error_result safe_read_text write_conflict_result bail_unless
read_stable file path = do
  seen ← file_revision file
  revision ← found_or (error_result path note_not_found none) seen
  text ← safe_read_text file path
  now ← file_revision file
  _ ← bail_unless (write_conflict_result path) (same_found now (some revision))
  pure (revision, text)

abbrev pub deferred : Issue
deferred = record {
  field = "_schema";
  message = "Missing required fields deferred to reindex enrichment";
  code = "required_missing_deferred";
}

-- `all(error.get("code") == "required_missing" for error in errors)`
unfoldable pub all_required_missing : List Issue → Bool
all_required_missing [] = true
all_required_missing (issue ∷ issues) =
    issue.code == "required_missing" && all_required_missing issues

unfoldable pub is_set : Option Text → Bool
is_set none = false
is_set (some provider) = not (is_blank (strip provider))

unfoldable pub is_none : Option FileRevision → Bool
is_none none = true
is_none (some r) = false

module _ (env : Env) where
  unfoldable pub is_ai_enrichment_enabled : Bool
  unfolding is_set
  is_ai_enrichment_enabled =
      env.schema_enabled
      && (env.ai_enabled
          && (env.allow_external_processing && (is_set env.ai_provider && env.has_ai_command)))

  unfoldable pub can_defer_required_missing : List Issue → Bool
  unfolding is_ai_enrichment_enabled all_required_missing
  can_defer_required_missing [] = false
  can_defer_required_missing (issue ∷ issues) =
      if not env.schema_enabled || not is_ai_enrichment_enabled
      then false
      else if not env.allow_defer_required_on_create
      then false
      else all_required_missing (issue ∷ issues)

  -- The frontmatter to write, with the warnings and suggestions.
  unfoldable pub create_fields :
      Bool → Text → Frontmatter → Io (Frontmatter × List Issue × List Issue)
  unfolding can_defer_required_missing error_result
  create_fields false path frontmatter = pure (frontmatter, [], [])
  create_fields true path frontmatter =
      let v = env.validate frontmatter in
      if v.valid
      then pure (v.validated_data, v.warnings, v.suggestions)
      else if can_defer_required_missing v.errors
      then pure (v.validated_data, v.warnings ++ deferred ∷ [], v.suggestions)
      else bail (error_result path (validation_failed v.errors) none)

  unfoldable pub with_id : Value → Frontmatter → Frontmatter
  with_id new_id frontmatter =
      if contains "id" frontmatter then frontmatter else insert "id" new_id frontmatter

  -- The part of `create_note` under the lock.
  unfoldable pub create_locked : Text → Text → Frontmatter → Text → Io Unit
  unfolding validate_for_write file_revision is_none error_result make_parents safe_write_text
      bail_unless
  create_locked path content frontmatter full_content = do
    file ← validate_for_write env path (some content) (some frontmatter) true
    seen ← file_revision file
    _ ← bail_unless (error_result path already_exists none) (is_none seen)
    _ ← make_parents
    safe_write_text true file full_content none path

  unfoldable pub create_body : Value → Text → Text → Frontmatter → Bool → Io OperationResult
  unfolding create_fields with_id serialize_frontmatter validate_content_size validate_for_write
      advisory_path_lock create_locked success_result
  create_body new_id path content frontmatter validate_schema = do
    (fields, warnings, suggestions) ← create_fields validate_schema path frontmatter
    let full = with_id new_id fields
    let full_content = serialize_frontmatter env full ++ content
    _ ← validate_content_size env full_content
    file ← validate_for_write env path (some content) (some full) true
    _ ← advisory_path_lock file
    _ ← create_locked path content full full_content
    pure (record (success_result path created) { warnings = warnings; suggestions = suggestions })

  -- `new_id` is what `generate_uuid7` returns, should it be called.
  unfoldable pub create_note : Value → Text → Text → Frontmatter → Bool → Io OperationResult
  unfolding return_write_lock_timeout create_body
  create_note new_id path content frontmatter validate_schema =
      return_write_lock_timeout path (create_body new_id path content frontmatter validate_schema)

  unfoldable pub write_note_body : Text → Text → Io OperationResult
  unfolding validate_for_write advisory_path_lock file_revision make_parents safe_write_text
      success_result is_none
  write_note_body path content = do
    file ← validate_for_write env path (some content) none true
    _ ← advisory_path_lock file
    file ← validate_for_write env path (some content) none true
    seen ← file_revision file
    _ ← make_parents
    _ ← safe_write_text true file content seen path
    pure (success_result path (if is_none seen then created else updated))

  unfoldable pub write_note : Text → Text → Io OperationResult
  unfolding return_write_lock_timeout write_note_body
  write_note path content = return_write_lock_timeout path (write_note_body path content)

  unfoldable pub append_body : Text → Text → Text → Io OperationResult
  unfolding validate_for_write advisory_path_lock read_stable appended_text validate_content_size
      safe_write_text success_result
  append_body path content separator = do
    file ← validate_for_write env path (some content) none true
    _ ← advisory_path_lock file
    file ← validate_for_write env path (some content) none true
    (revision, existing) ← read_stable file path
    let new_content = appended_text existing separator content
    _ ← validate_content_size env new_content
    _ ← safe_write_text true file new_content (some revision) path
    pure (success_result path appended)

  unfoldable pub append_note : Text → Text → Text → Io OperationResult
  unfolding return_write_lock_timeout append_body
  append_note path content separator =
      return_write_lock_timeout path (append_body path content separator)
