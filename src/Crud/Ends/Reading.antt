-- ===== src/Crud/Ends/Reading.antt =====
-- Validations and reads write nothing.
use vault_search_mcp.Prelude.{
  List, String, Option, Bool, ◌≡◌, refl, true, false, Option-cases, if◌then◌else◌, inl, inr, none,
  some, ap, ◌∷◌, nat_eq, string_eq,
}
use vault_search_mcp.Prelude.Result.{
  value_error, key_error, os_error, unicode_decode_error, write_lock_timeout,
}
use vault_search_mcp.Prelude.Text.{Text, strip}
use vault_search_mcp.Dict.{lookup}
use vault_search_mcp.Crud.World.{
  Look, read_as, World, File, FileRevision, Files, Frontmatter, Message, OperationResult, Outcome,
  Write, error_result, raised, returned, value, write_conflict, note_not_found, outside_vault,
  read_failed,
}
use vault_search_mcp.Crud.Env.{
  Env, validate_for_write, resolve_internal_path, resolve_path, validate_content,
  validate_content_size, validate_extension, validate_fields, validate_frontmatter_size,
  validate_markdown_only, validate_not_ignored_folder,
}
use vault_search_mcp.Crud.Files.{
  safe_read_text, decode, universal_newlines, read_checked, read_failure, read_text,
}
use vault_search_mcp.Crud.Write.{read_stable, found_or, write_conflict_result}
use vault_search_mcp.Crud.Ends.{
  Others, Calm, Keeps, Keeps-bind, Keeps-Ends, Ends-bind, Ends, bail_unless-Keeps, call-Keeps,
  file_revision-Keeps, require-Keeps, resolve_call-Keeps,
}

pub error_result-fails :
    (path : Text) (m : Message) (code : Option String) → (error_result path m code).success ≡ false
unfolding error_result
error_result-fails path m code = refl

pub write_conflict_result-fails : (path : Text) → (write_conflict_result path).success ≡ false
unfolding write_conflict_result
write_conflict_result-fails path = error_result-fails path write_conflict (some "write_conflict")

read_failure-End :
    (ws : List Write) (V : Text → World → Type 0) (path : Text) (w : World) (o : Outcome Text)
    → Ends ws V (w, o)
    → Ends ws V (read_failure path w o)
unfolding read_failure
read_failure-End ws V path w (value t) h = h
read_failure-End ws V path w (returned r) h = h
read_failure-End ws V path w (raised os_error) h = record {
  holds = (h.holds, error_result-fails path read_failed none);
}
read_failure-End ws V path w (raised value_error) h = record {
  holds = (h.holds, error_result-fails path outside_vault none);
}
read_failure-End ws V path w (raised unicode_decode_error) h = record {
  holds = (h.holds, error_result-fails path outside_vault none);
}
read_failure-End ws V path w (raised key_error) h = record { holds = h.holds }
read_failure-End ws V path w (raised write_lock_timeout) h = record { holds = h.holds }

-- The text that was read of the file is the last look.
abbrev pub Read : List Write → Others → List Look → String → Text → World → Type 0
Read ws rs ds file text w = Calm ws rs (read_as file text ∷ ds) w

module _ {ws : List Write} {rs : Others} {ds : List Look} where
  pub resolve_path-Keeps : (env : Env) (path : Text) → Keeps ws rs ds (resolve_path env path)
  unfolding resolve_path resolve_internal_path
  resolve_path-Keeps env path = Keeps-bind (require-Keeps _) λ _. Keeps-bind (require-Keeps _) λ _.
      Keeps-bind (require-Keeps _) λ _.
        Keeps-bind (require-Keeps _)
          λ _. Keeps-bind resolve_call-Keeps λ _. record { run = λ w c. c }

  content-Keeps :
      (env : Env) (content : Option Text) → Keeps ws rs ds (validate_content env content)
  unfolding validate_content validate_content_size
  content-Keeps env none = record { run = λ w c. c }
  content-Keeps env (some content) = require-Keeps _

  fields-Keeps :
      (env : Env) (fields : Option Frontmatter) → Keeps ws rs ds (validate_fields env fields)
  unfolding validate_fields validate_frontmatter_size
  fields-Keeps env none = record { run = λ w c. c }
  fields-Keeps env (some fields) = require-Keeps _

  kind-Keeps :
      (env : Env) (path : Text) (b : Bool)
      → Keeps ws rs ds
          (if b then validate_markdown_only env path else validate_extension env path true)
  unfolding validate_markdown_only validate_extension
  kind-Keeps env path true = require-Keeps _
  kind-Keeps env path false = require-Keeps _

  pub validate_for_write-Keeps :
      (env : Env) (path : Text) (content : Option Text) (fields : Option Frontmatter) (b : Bool)
      → Keeps ws rs ds (validate_for_write env path content fields b)
  unfolding validate_for_write validate_not_ignored_folder
  validate_for_write-Keeps env path content fields b = Keeps-bind (kind-Keeps env path b) λ _.
      Keeps-bind (require-Keeps _) λ _.
        Keeps-bind (content-Keeps env content)
          λ _. Keeps-bind (fields-Keeps env fields) λ _. resolve_path-Keeps env path

  -- The file that a path leads to, by the files at that moment.
  pub resolve_path-Ends :
      (env : Env) (path : Text) (w : World)
      → Calm ws rs ds w
      → Ends ws
          (λ file w'.
            Calm ws rs ds w' × ((files : Files) × (file ≡ env.resolved files (strip path))))
          (resolve_path env path w)
  unfolding resolve_path resolve_internal_path
  resolve_path-Ends env path w c = Keeps-Ends w (require-Keeps _) c λ _ w c.
      Keeps-Ends w (require-Keeps _) c λ _ w c. Keeps-Ends w (require-Keeps _) c λ _ w c.
        Keeps-Ends w (require-Keeps _) c λ _ w c.
          Keeps-Ends w resolve_call-Keeps c λ _ w c. record { holds = (c, (w.files, refl)) }

  decode-Ends :
      (file : String) (found : Option File) (w : World)
      → Calm ws rs ds w
      → Ends ws (Read ws rs ds file) (decode file found w)
  unfolding decode
  decode-Ends file none w c = record { holds = c.0 }
  decode-Ends file (some f) w c = elim (Option-cases f.text) [
    | inl e ↦ rw (e, decode) (record { holds = c.0 })
    | inr (t, e) ↦
        rw (e, decode)
          (record { holds = (c.0, c.1, ap (◌∷◌ (read_as file (universal_newlines false t))) c.2) })
  ]

  read_checked-Ends :
      (file : String) (w : World)
      → Calm ws rs ds w
      → Ends ws (Read ws rs ds file) (read_checked file w)
  unfolding read_checked read_text
  read_checked-Ends file w c =
      Keeps-Ends w resolve_call-Keeps c
        λ _ w c. Keeps-Ends w call-Keeps c λ _ w c. decode-Ends file (lookup file w.files) w c

  safe_read_text-Ends :
      (file : String) (path : Text) (w : World)
      → Calm ws rs ds w
      → Ends ws (Read ws rs ds file) (safe_read_text file path w)
  unfolding safe_read_text
  safe_read_text-Ends file path w c =
      read_failure-End ws (Read ws rs ds file) path _ _ (read_checked-Ends file w c)

  pub found_or-Keeps :
      (r : OperationResult) (seen : Option FileRevision)
      → r.success ≡ false
      → Keeps ws rs ds (found_or r seen)
  unfolding found_or
  found_or-Keeps r none e = record { run = λ w c. (c.0, e) }
  found_or-Keeps r (some revision) e = record { run = λ w c. c }

module _ {ws : List Write} {rs : Others} {ds : List Look} where
  pub read_stable-Ends :
      (file : String) (path : Text) (w : World)
      → Calm ws rs ds w
      → Ends ws (λ p w'. Read ws rs ds file p.1 w') (read_stable file path w)
  unfolding read_stable
  read_stable-Ends file path w c = Keeps-Ends w (file_revision-Keeps file) c λ seen w c.
      Keeps-Ends w (found_or-Keeps _ seen (error_result-fails path note_not_found none)) c
        λ revision w c.
          Ends-bind (safe_read_text file path) (safe_read_text-Ends file path w c) λ text w c.
            Keeps-Ends w (file_revision-Keeps file) c λ now w c.
              Keeps-Ends w (bail_unless-Keeps _ _ (write_conflict_result-fails path)) c
                λ _ w c. record { holds = c }
