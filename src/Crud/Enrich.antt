-- ===== src/Crud/Enrich.antt =====
-- `enrich_note_frontmatter_required` of src/vault_search/crud/write.py: the required fields that a
-- note lacks are generated and written, under the lock, if they are still missing.
use vault_search_mcp.Prelude.{
  ℕ, List, String, Option, Bool, [], ◌∷◌, not, length, false, if◌then◌else◌, leb, nat_beq, none,
  some, true, ◌&&◌, ◌++◌, ◌+◌, ◌||◌, nat_eq, string_eq,
}
use vault_search_mcp.Prelude.Text.{Text, codes, ends_md, is_blank, strip}
use vault_search_mcp.Dict.{lookup}
use vault_search_mcp.Crud.World.{
  ◌>>=◌, FileRevision, Frontmatter, Io, Issue, Message, OperationResult, Value, bail, error_result,
  fields_not_returned, filled_manually, frontmatter_enriched, mapping, no_entries,
  no_required_fields, no_values, nothing_missing, null, provider_failed, pure, schema_disabled,
  sequence, string, success_result, unsupported_extension, validation_failed,
}
use vault_search_mcp.Crud.Calls.{advisory_path_lock, return_write_lock_timeout}
use vault_search_mcp.Crud.Env.{
  Env, is_member, resolve_path, serialize_frontmatter, validate_content_size,
  validate_frontmatter_size,
}
use vault_search_mcp.Crud.Files.{safe_write_text}
use vault_search_mcp.Crud.Write.{read_stable}
use vault_search_mcp.Crud.Frontmatter.{merged, mark_ignored}

unfoldable pub is_empty_value : Value → Bool
is_empty_value null = true
is_empty_value (string text) = is_blank (strip text)
is_empty_value (sequence no_values) = true
is_empty_value (mapping no_entries) = true
is_empty_value _ = false

unfoldable pub is_missing_value : Option Value → Bool
unfolding is_empty_value
is_missing_value none = true
is_missing_value (some v) = is_empty_value v

unfoldable pub is_field_missing_or_empty : Frontmatter → String → Bool
unfolding is_missing_value
is_field_missing_or_empty fields name = is_missing_value (lookup name fields)

unfoldable pub missing_fields : Frontmatter → List String → List String
unfolding is_field_missing_or_empty
missing_fields fields [] = []
missing_fields fields (name ∷ names) =
    if is_field_missing_or_empty fields name
    then name ∷ missing_fields fields names
    else missing_fields fields names

-- `{name: value for name, value in generated.items() if name in still_missing}`
unfoldable pub select_fields : List String → Frontmatter → Frontmatter
unfolding is_member
select_fields names [] = []
select_fields names ((name, v) ∷ fields) =
    if is_member name names
    then (name, v) ∷ select_fields names fields
    else select_fields names fields

-- `"required" in message.lower()`, on the code points: no others fold to the letters of the word.
unfoldable pub fold : ℕ → ℕ
fold c = if leb 65 c && leb c 90 then c + 32 else c

unfoldable pub starts_folded : Text → Text → Bool
unfolding fold
starts_folded [] t = true
starts_folded (c ∷ p) [] = false
starts_folded (c ∷ p) (d ∷ t) = nat_beq c (fold d) && starts_folded p t

unfoldable pub mentions : Text → Text → Bool
unfolding starts_folded
mentions p [] = starts_folded p []
mentions p (c ∷ t) = starts_folded p (c ∷ t) || mentions p t

-- `"; ".join(f"{field}: {message}")`
unfoldable pub join_errors : List Issue → Text
join_errors [] = []
join_errors (issue ∷ issues) =
    codes issue.field
    ++ codes ": "
    ++ codes issue.message
    ++ (if leb (length issues) 0 then [] else codes "; " ++ join_errors issues)

unfoldable pub format_frontmatter_errors : List Issue → Text
unfolding join_errors
format_frontmatter_errors issues = codes "Frontmatter validation failed: " ++ join_errors issues

abbrev pub partial_warning : Issue
partial_warning = record {
  field = "_schema";
  message =
      "Strict validation still found required fields missing; the partial enrichment was saved";
  code = "required_missing_partial";
}

-- A success that filled so many fields.
unfoldable pub enriched_result : Text → Message → Bool → ℕ → OperationResult
unfolding success_result
enriched_result path message did filled = record (success_result path message) {
  enriched = some did;
  fields_filled = some filled;
}

-- What the provider returns, or its error.
pub data Generated : Type 0 where
  generated : Frontmatter → Generated
  provider_error : String → Generated

unfoldable pub fields_or_bail : Text → Generated → Io Frontmatter
unfolding error_result
fields_or_bail path (generated fields) = pure fields
fields_or_bail path (provider_error message) =
    bail (error_result path (provider_failed message) none)

module _ (env : Env) where
  -- Required fields that are still missing after validation do not stop a partial enrichment.
  unfoldable pub validate_enriched :
      Bool → Text → Frontmatter → Io (Frontmatter × List Issue × List Issue)
  unfolding mentions format_frontmatter_errors error_result
  validate_enriched false path fields = pure (fields, [], [])
  validate_enriched true path fields =
      let v = env.validate fields in
      if v.valid
      then pure (v.validated_data, v.warnings, v.suggestions)
      else if mentions (codes "required") (format_frontmatter_errors v.errors)
      then pure (fields, partial_warning ∷ [], [])
      else bail (error_result path (validation_failed v.errors) none)

  -- The write under the lock, of the fields that are new.
  unfoldable pub write_enriched :
      Bool → String → Text → FileRevision → Frontmatter → Text → Frontmatter → Io OperationResult
  unfolding validate_enriched validate_frontmatter_size serialize_frontmatter validate_content_size
      safe_write_text mark_ignored enriched_result merged
  write_enriched validate_schema file path revision disk body new_values = do
    (fields, warnings, suggestions) ←
        validate_enriched validate_schema path (merged disk new_values)
    _ ← validate_frontmatter_size env fields
    _ ← validate_content_size env (serialize_frontmatter env fields ++ body)
    _ ← safe_write_text true file (serialize_frontmatter env fields ++ body) (some revision) path
    _ ← mark_ignored env path
    pure (record (enriched_result path frontmatter_enriched true (length new_values)) {
      warnings = warnings;
      suggestions = suggestions;
    })

  -- What is done with the fields that the note on disk still lacks.
  unfoldable pub write_missing :
      Bool
      → String
      → Text
      → FileRevision
      → Frontmatter
      → Text
      → List String
      → Frontmatter
      → Io OperationResult
  unfolding select_fields enriched_result error_result write_enriched
  write_missing validate_schema file path revision disk body still_missing fields =
      let new_values = select_fields still_missing fields in
      if leb (length still_missing) 0
      then pure (enriched_result path filled_manually false 0)
      else if leb (length new_values) 0
      then bail (error_result path fields_not_returned (some "required_missing"))
      else write_enriched validate_schema file path revision disk body new_values

  unfoldable pub persist_generated_frontmatter :
      Bool → String → Text → Frontmatter → Io OperationResult
  unfolding advisory_path_lock read_stable missing_fields write_missing
  persist_generated_frontmatter validate_schema file path fields = do
    _ ← advisory_path_lock file
    (revision, content) ← read_stable file path
    let (disk, body) = env.parse_frontmatter content
    write_missing validate_schema file path revision disk body
        (missing_fields disk env.required_fields) fields

  -- `provider` stands for `generate_required_fields_with_ai`, given the body, the frontmatter and
  -- the required fields.
  unfoldable pub enrich_missing :
      (Text → Frontmatter → List String → Generated)
      → Bool
      → String
      → Text
      → Text
      → Frontmatter
      → Io OperationResult
  unfolding missing_fields enriched_result fields_or_bail persist_generated_frontmatter
  enrich_missing provider validate_schema file path body existing =
      if not env.schema_enabled
      then pure (enriched_result path schema_disabled false 0)
      else if leb (length env.required_fields) 0
      then pure (enriched_result path no_required_fields false 0)
      else if leb (length (missing_fields existing env.required_fields)) 0
      then pure (enriched_result path nothing_missing false 0)
      else do
        fields ← fields_or_bail path (provider body existing env.required_fields)
        persist_generated_frontmatter validate_schema file path fields

  unfoldable pub enrich_found :
      (Text → Frontmatter → List String → Generated) → Bool → Text → Io OperationResult
  unfolding resolve_path advisory_path_lock read_stable enrich_missing
  enrich_found provider validate_schema path = do
    file ← resolve_path env path
    _ ← advisory_path_lock file
    (revision, content) ← read_stable file path
    let (existing, body) = env.parse_frontmatter content
    enrich_missing provider validate_schema file path body existing

  unfoldable pub enrich_note_frontmatter_required :
      (Text → Frontmatter → List String → Generated) → Bool → Text → Io OperationResult
  unfolding return_write_lock_timeout enrich_found success_result
  enrich_note_frontmatter_required provider validate_schema path = return_write_lock_timeout path (
      if ends_md path
      then enrich_found provider validate_schema path
      else pure (success_result path unsupported_extension))
