-- ===== src/Crud/World.antt =====
-- The file system that the operations of src/vault_search/crud work on, and what other processes
-- do to it meanwhile; the results of an operation, of crud/types.py; `FileRevision` and the
-- outcomes of a lock, of crud/locking.py.
use vault_search_mcp.Prelude.{
  ℕ, List, String, Option, Bool, ◌&&◌, nat_beq, none, some, [], arith, false, if◌then◌else◌, refl,
  true, ◌≡◌, nat_eq, string_eq,
}
use vault_search_mcp.Prelude.Result.{Exception, value_error}
use vault_search_mcp.Prelude.Text.{Text}
use vault_search_mcp.Dict.{Dict}

-- What YAML reads: null, a string, another scalar by its text, a sequence or a mapping.
mutual
  pub data Value : Type 0 where
    null : Value
    string scalar : Text → Value
    sequence : Values → Value
    mapping : Entries → Value

  pub data Values : Type 0 where
    no_values : Values
    one_more : Value → Values → Values

  pub data Entries : Type 0 where
    no_entries : Entries
    entry : String → Value → Entries → Entries

abbrev pub Frontmatter : Type 0
Frontmatter = Dict String Value

-- An error, warning or suggestion of the validator.
pub record Issue : Type 0 where
  pub field : String
  pub message : String
  pub code : String

-- The messages, by what they say.
pub data Message : Type 0 where
  note_not_found already_exists write_conflict lock_timeout : Message
  read_failed write_failed outside_vault : Message
  created updated appended : Message
  frontmatter_merged frontmatter_replaced frontmatter_enriched : Message
  validation_failed : List Issue → Message
  only_md id_added has_id : Message
  unsupported_extension schema_disabled no_required_fields nothing_missing : Message
  provider_failed : String → Message
  filled_manually fields_not_returned : Message
  trashed : String → Message
  no_trash_name trash_failed : Message
  extension_changed source_not_found destination_exists move_failed moved : Message

pub record OperationResult : Type 0 where
  pub success : Bool
  pub message : Message
  pub path : Text
  pub error_code : Option String
  pub enriched : Option Bool
  pub fields_filled : Option ℕ
  pub id_was_added : Option Bool
  pub id : Option Value
  pub warnings : List Issue
  pub suggestions : List Issue

pub record FileRevision : Type 0 where
  pub inode : ℕ
  pub mtime_ns : ℕ
  pub size : ℕ

abbrev pub same_revision : FileRevision → FileRevision → Bool
same_revision a b =
    nat_beq a.size b.size && (nat_beq a.mtime_ns b.mtime_ns && nat_beq a.inode b.inode)

-- `a == b`, where None is no file.
abbrev pub same_found : Option FileRevision → Option FileRevision → Bool
same_found none none = true
same_found (some a) (some b) = same_revision a b
same_found _ _ = false

pub same_found_eq : (a b : Option FileRevision) → same_found a b ≡ true → a ≡ b
same_found_eq none none h = refl
same_found_eq none (some b) h = ground arith
same_found_eq (some a) none h = ground arith
same_found_eq (some a) (some b) h = ground arith

-- `text` is none if the bytes are not UTF-8.
pub record File : Type 0 where
  pub revision : FileRevision
  pub text : Option Text

abbrev pub Files : Type 0
Files = Dict String File

-- How a call of the file system ends: as it should, with an OSError, or, where the call resolves
-- a path, outside the vault.
pub data Fault : Type 0 where
  fine failing outside : Fault

-- What comes with a call: what other processes did since the last one, how the call ends, and the
-- revision that a file gets which it writes.
pub record Event : Type 0 where
  pub change : Files → Files
  pub fault : Fault
  pub stamp : FileRevision

pub data LockOutcome : Type 0 where
  acquired timed_out lock_outside lock_failed : LockOutcome

-- One call that changed a note: the text that replaced what was at the path, or a move. `over` is
-- what was there at that moment.
pub data Write : Type 0 where
  replaced : String → Option File → Text → Write
  relocated : String → String → Option File → Write

-- What was seen of a file: its text as it was read, or whether it exists.
pub data Look : Type 0 where
  read_as : String → Text → Look
  looked_at : String → Bool → Look

-- `events` are those of the calls to come, and `races` the changes that other processes make
-- between the last check of a revision and the call that writes; where a list ends, nothing
-- happens and every call is fine. `writes`, `looks` and `ignored` are traces, the newest first.
pub record World : Type 0 where
  pub files : Files
  pub events : List Event
  pub races : List (Files → Files)
  pub locks : List LockOutcome
  pub writes : List Write
  pub looks : List Look
  pub ignored : List Text

-- How a function ends, or a part of it: with a value, by a `return` of the operation's result, or
-- by an exception.
pub data Outcome (A : Type 0) : Type 0 where
  value : A → Outcome A
  returned : OperationResult → Outcome A
  raised : Exception → Outcome A

abbrev pub Io : Type 0 → Type 0
Io A = World → World × Outcome A

abbrev pub continue : {A B : Type 0} → (A → Io B) → World → Outcome A → World × Outcome B
continue f w (value a) = f a w
continue f w (returned r) = (w, returned r)
continue f w (raised e) = (w, raised e)

infixl 5 ◌>>=◌
unfoldable pub ◌>>=◌ : {A B : Type 0} → Io A → (A → Io B) → Io B
◌>>=◌ m f w = continue f (m w).0 (m w).1

module _ {A : Type 0} where
  abbrev pub pure : A → Io A
  pure a w = (w, value a)

  abbrev pub raise : Exception → Io A
  raise e w = (w, raised e)

  abbrev pub bail : OperationResult → Io A
  bail r w = (w, returned r)

-- `if not b: raise ValueError`
unfoldable pub require : Bool → Io Unit
require b = if b then pure tt else raise value_error

unfoldable pub success_result : Text → Message → OperationResult
success_result path message = record {
  success = true;
  message = message;
  path = path;
  error_code = none;
  enriched = none;
  fields_filled = none;
  id_was_added = none;
  id = none;
  warnings = [];
  suggestions = [];
}

unfoldable pub error_result : Text → Message → Option String → OperationResult
unfolding success_result
error_result path message code = record (success_result path message) {
  success = false;
  error_code = code;
}
