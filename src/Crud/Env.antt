-- ===== src/Crud/Env.antt =====
-- The validations of src/vault_search/crud/validation.py, and what they stand on.
use vault_search_mcp.Prelude.{
  ℕ, List, String, Option, Bool, [], ◌∷◌, ◌==◌, string_eq, false, if◌then◌else◌, leb, length, ltb,
  nat_beq, none, not, some, true, ◌&&◌, ◌+◌, ◌||◌, nat_eq, ◌++◌,
}
use vault_search_mcp.Prelude.Text.{Text, codes, is_blank, strip}
use vault_search_mcp.Crud.World.{Files, Frontmatter, Io, Issue, pure, require, value, ◌>>=◌}
use vault_search_mcp.Crud.Calls.{resolve_call}

-- What `FrontmatterValidator.validate` returns.
pub record Validation : Type 0 where
  pub valid : Bool
  pub validated_data : Frontmatter
  pub errors : List Issue
  pub warnings : List Issue
  pub suggestions : List Issue

-- The settings, and the code that the operations call: pathlib (`suffix_lower`, `parts`, the test
-- of `validate_relative_path` that a path stays below a base, and where `resolve` leads, which
-- depends on the links among the files), YAML, the frontmatter parser and the schema validator.
pub record Env : Type 0 where
  pub max_content_size : ℕ
  pub max_path_length : ℕ
  pub max_frontmatter_keys : ℕ
  pub ignored_folders : List String
  pub indexable_extensions : List String
  pub suffix_lower : Text → String
  pub parts : Text → List String
  pub stays_inside : Text → Bool
  pub resolved : Files → Text → String
  pub yaml_dump : Frontmatter → Text
  pub parse_frontmatter : Text → Frontmatter × Text
  pub validate : Frontmatter → Validation
  pub schema_enabled : Bool
  pub required_fields : List String
  pub ai_enabled : Bool
  pub allow_external_processing : Bool
  pub ai_provider : Option Text
  pub has_ai_command : Bool
  pub allow_defer_required_on_create : Bool

unfoldable pub is_member : String → List String → Bool
is_member x [] = false
is_member x (y ∷ ys) = y == x || is_member x ys

-- The number of bytes of a character in UTF-8; a surrogate has none.
unfoldable pub utf8_width : ℕ → Option ℕ
utf8_width c =
    if ltb c 128
    then some 1
    else if ltb c 2048
    then some 2
    else if leb 55296 c && leb c 57343
    then none
    else if ltb c 65536
    then some 3
    else some 4

unfoldable pub add_width : Option ℕ → Option ℕ → Option ℕ
add_width (some a) (some b) = some (a + b)
add_width _ _ = none

-- `len(content.encode("utf-8"))`, where a surrogate raises.
unfoldable pub utf8_size : Text → Option ℕ
unfolding utf8_width add_width
utf8_size [] = some 0
utf8_size (c ∷ t) = add_width (utf8_width c) (utf8_size t)

unfoldable pub at_most : ℕ → Option ℕ → Bool
at_most limit none = false
at_most limit (some size) = leb size limit

-- The loop over the parts: neither `..` nor a null character.
unfoldable pub has_zero : Text → Bool
has_zero [] = false
has_zero (c ∷ t) = nat_beq c 0 || has_zero t

unfoldable pub is_clean : List String → Bool
is_clean [] = true
is_clean (part ∷ parts) =
    if part == ".." then false else if has_zero (codes part) then false else is_clean parts

-- `validate_relative_path` of utils/security.py
unfoldable pub starts_absolute : Text → Bool
starts_absolute [] = false
starts_absolute (c ∷ t) = nat_beq c b'/' || nat_beq c 92

-- any(ignored in path_parts for ignored in folders)
unfoldable pub any_member : List String → List String → Bool
unfolding is_member
any_member [] parts = false
any_member (folder ∷ folders) parts = is_member folder parts || any_member folders parts

module _ (env : Env) where
  unfoldable pub validate_relative_path : Text → Bool
  unfolding starts_absolute is_clean
  validate_relative_path [] = false
  validate_relative_path (c ∷ path) =
      if starts_absolute (c ∷ path)
      then false
      else is_clean (env.parts (c ∷ path)) && env.stays_inside (c ∷ path)

  -- A surrogate makes `encode` raise a ValueError too.
  unfoldable pub validate_content_size : Text → Io Unit
  unfolding require at_most
  validate_content_size content = require (at_most env.max_content_size (utf8_size content))

  unfoldable pub validate_frontmatter_size : Frontmatter → Io Unit
  unfolding require
  validate_frontmatter_size frontmatter =
      require (leb (length frontmatter) env.max_frontmatter_keys)

  -- The two cases of `allow_create`.
  unfoldable pub validate_extension : Text → Bool → Io Unit
  unfolding require
  validate_extension path allow_create = require (
      is_member (env.suffix_lower path)
        (if allow_create then ".md" ∷ ".canvas" ∷ [] else env.indexable_extensions))

  unfoldable pub validate_markdown_only : Text → Io Unit
  unfolding require
  validate_markdown_only path = require (env.suffix_lower path == ".md")

  unfoldable pub validate_not_ignored_folder : Text → Io Unit
  unfolding require any_member
  validate_not_ignored_folder path = require (not (any_member env.ignored_folders (env.parts path)))

  unfoldable pub resolve_internal_path : Text → Io String
  unfolding resolve_call
  resolve_internal_path path = do _ ← resolve_call; λ w. (w, value (env.resolved w.files path))

  unfoldable pub resolve_path : Text → Io String
  unfolding require validate_relative_path resolve_internal_path
  resolve_path path = do
    _ ← require (not (is_blank path))
    let stripped = strip path
    _ ← require (not (is_blank stripped))
    _ ← require (leb (length stripped) env.max_path_length)
    _ ← require (validate_relative_path stripped)
    resolve_internal_path stripped

  unfoldable pub validate_content : Option Text → Io Unit
  unfolding validate_content_size
  validate_content none = pure tt
  validate_content (some content) = validate_content_size content

  unfoldable pub validate_fields : Option Frontmatter → Io Unit
  unfolding validate_frontmatter_size
  validate_fields none = pure tt
  validate_fields (some frontmatter) = validate_frontmatter_size frontmatter

  unfoldable pub validate_for_write : Text → Option Text → Option Frontmatter → Bool → Io String
  unfolding validate_markdown_only validate_extension validate_not_ignored_folder validate_content
      validate_fields resolve_path
  validate_for_write path content frontmatter markdown_only = do
    _ ← if markdown_only then validate_markdown_only path else validate_extension path true
    _ ← validate_not_ignored_folder path
    _ ← validate_content content
    _ ← validate_fields frontmatter
    resolve_path path

  unfoldable pub serialize_frontmatter : Frontmatter → Text
  serialize_frontmatter [] = []
  serialize_frontmatter (field ∷ fields) =
      codes "---\n" ++ env.yaml_dump (field ∷ fields) ++ codes "---\n\n"
