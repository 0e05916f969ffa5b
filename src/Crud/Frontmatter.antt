-- ===== src/Crud/Frontmatter.antt =====
-- `update_frontmatter` and `ensure_note_id` of src/vault_search/crud/write.py.
use vault_search_mcp.Prelude.{
  String, Bool, [], ◌∷◌, List, false, if◌then◌else◌, none, some, true, ◌&&◌, ◌++◌, nat_eq,
  string_eq,
}
use vault_search_mcp.Prelude.Text.{Text, ends_md}
use vault_search_mcp.Dict.{insert, contains, lookup, remove}
use vault_search_mcp.Crud.World.{
  FileRevision, Frontmatter, Io, Issue, OperationResult, Value, bail, error_result,
  frontmatter_merged, frontmatter_replaced, has_id, id_added, only_md, pure, success_result,
  validation_failed, value, ◌>>=◌,
}
use vault_search_mcp.Crud.Calls.{advisory_path_lock, return_write_lock_timeout}
use vault_search_mcp.Crud.Env.{
  Env, resolve_path, serialize_frontmatter, validate_for_write, validate_frontmatter_size,
}
use vault_search_mcp.Crud.Files.{safe_write_text}
use vault_search_mcp.Crud.Write.{read_stable, bail_unless}

-- `{**old, **new}` and `old.update(new)`
unfoldable pub merged : Frontmatter → Frontmatter → Frontmatter
merged old [] = old
merged old ((field, v) ∷ new) = merged (insert field v old) new

-- `{k: v for k, v in fields.items() if k not in known}`
unfoldable pub without_fields : Frontmatter → Frontmatter → Frontmatter
without_fields known [] = []
without_fields known ((field, v) ∷ fields) =
    if contains field known
    then without_fields known fields
    else (field, v) ∷ without_fields known fields

module _ (env : Env) where
  -- `validate_frontmatter_schema`, whose ValueError is returned as an error by its callers here.
  unfoldable pub validated : Bool → Text → Frontmatter → Io (Frontmatter × List Issue × List Issue)
  unfolding error_result
  validated false path fields = pure (fields, [], [])
  validated true path fields =
      let v = env.validate fields in
      if v.valid
      then pure (v.validated_data, v.warnings, v.suggestions)
      else bail (error_result path (validation_failed v.errors) none)

  unfoldable pub update_body : Text → Frontmatter → Bool → Bool → Io OperationResult
  unfolding validate_for_write advisory_path_lock read_stable merged validated
      validate_frontmatter_size serialize_frontmatter safe_write_text success_result
  update_body path metadata merge validate_schema = do
    file ← validate_for_write env path none (some metadata) true
    _ ← advisory_path_lock file
    file ← validate_for_write env path none (some metadata) true
    (revision, content) ← read_stable file path
    let (existing_fm, body) = env.parse_frontmatter content
    let new_fm = if merge then merged existing_fm metadata else metadata
    (new_fm, warnings, suggestions) ← validated validate_schema path new_fm
    _ ← validate_frontmatter_size env new_fm
    _ ← safe_write_text true file (serialize_frontmatter env new_fm ++ body) (some revision) path
    pure
        (record (success_result path (if merge then frontmatter_merged else frontmatter_replaced)) {
          warnings = warnings;
          suggestions = suggestions;
        })

  unfoldable pub update_frontmatter : Text → Frontmatter → Bool → Bool → Io OperationResult
  unfolding return_write_lock_timeout update_body
  update_frontmatter path metadata merge validate_schema =
      return_write_lock_timeout path (update_body path metadata merge validate_schema)

  -- The frontmatter with its new id in front: the schema's, if it made one.
  unfoldable pub id_fields : Value → Frontmatter → Frontmatter → Frontmatter
  unfolding without_fields merged
  id_fields new_id existing validated_data = elim (lookup "id" validated_data) [
    | some made ↦
        merged (("id", made) ∷ remove "id" existing)
          (without_fields existing (remove "id" validated_data))
    | none ↦ ("id", new_id) ∷ existing
  ]

  unfoldable pub new_id_fields :
      Bool → Value → Text → Frontmatter → Io (Frontmatter × List Issue × List Issue)
  unfolding validated id_fields
  new_id_fields false new_id path existing = pure (("id", new_id) ∷ existing, [], [])
  new_id_fields true new_id path existing = do
    (validated_data, warnings, suggestions) ← validated true path existing
    pure (id_fields new_id existing validated_data, warnings, suggestions)

  -- The result for a note that has an id; a failing validation is ignored.
  unfoldable pub has_id_result : Bool → Text → Value → Frontmatter → OperationResult
  unfolding success_result
  has_id_result validate_schema path id existing =
      let v = env.validate existing in
      let reported = validate_schema && v.valid in
      record (success_result path has_id) {
        id_was_added = some false;
        id = some id;
        warnings = if reported then v.warnings else [];
        suggestions = if reported then v.suggestions else [];
      }

  -- `ignore_next_change`, after the write.
  unfoldable pub mark_ignored : Text → Io Unit
  mark_ignored path w = (record w { ignored = path ∷ w.ignored }, value tt)

  unfoldable pub add_id :
      Bool → Value → String → Text → FileRevision → Frontmatter → Text → Io OperationResult
  unfolding new_id_fields serialize_frontmatter safe_write_text mark_ignored success_result
  add_id validate_schema new_id file path revision existing body = do
    (new_fm, warnings, suggestions) ← new_id_fields validate_schema new_id path existing
    _ ← safe_write_text true file (serialize_frontmatter env new_fm ++ body) (some revision) path
    _ ← mark_ignored path
    pure (record (success_result path id_added) {
      id_was_added = some true;
      id = lookup "id" new_fm;
      warnings = warnings;
      suggestions = suggestions;
    })

  unfoldable pub ensure_note_id_locked : Bool → Value → Text → Io OperationResult
  unfolding error_result resolve_path read_stable has_id_result add_id bail_unless
  ensure_note_id_locked validate_schema new_id path = do
    _ ← bail_unless (error_result path only_md none) (ends_md path)
    file ← resolve_path env path
    (revision, content) ← read_stable file path
    let (existing, body) = env.parse_frontmatter content
    elim (lookup "id" existing) [
      | some id ↦ pure (has_id_result validate_schema path id existing)
      | none ↦ add_id validate_schema new_id file path revision existing body
    ]

  unfoldable pub ensure_body : Bool → Value → Text → Io OperationResult
  unfolding error_result bail_unless resolve_path advisory_path_lock ensure_note_id_locked
  ensure_body validate_schema new_id path = do
    _ ← bail_unless (error_result path only_md none) (ends_md path)
    file ← resolve_path env path
    _ ← advisory_path_lock file
    ensure_note_id_locked validate_schema new_id path

  unfoldable pub ensure_note_id : Bool → Value → Text → Io OperationResult
  unfolding return_write_lock_timeout ensure_body
  ensure_note_id validate_schema new_id path =
      return_write_lock_timeout path (ensure_body validate_schema new_id path)
