-- ===== src/Watching/Handler.antt =====
-- `VaultEventHandler` of src/vault_search/watching/event_handler.py: events are filtered, checked
-- against the ignore tokens and coalesced by path.
pub mod Enqueue
use vault_search_mcp.Prelude.{
  ℕ, Bool, List, Option, String, [], arith, false, if◌then◌else◌, none, not, some, true, ◌&&◌, ◌==◌,
  ◌||◌, ◌∷◌, ◌≡◌, nat_eq, string_eq,
}
use vault_search_mcp.Dict.{Dict, insert, lookup}
use vault_search_mcp.Watching.Ignore.{Vault, IgnoreToken, check_and_clear_ignore}

pub record PendingEvent : Type 0 where
  pub deleted : Bool
  pub time : ℕ

-- What pathlib answers for the absolute path of an event: the suffix in lower case, the parts,
-- the resolved path, and the path relative to the vault's root, if it lies inside.
pub record Paths : Type 0 where
  pub suffix_lower : String → String
  pub parts : String → List String
  pub resolved : String → String
  pub relative : String → Option String

-- INDEXABLE_EXTENSIONS and IGNORED_FOLDERS of config/search.py.
pub record Filter : Type 0 where
  pub extensions : List String
  pub ignored_folders : List String

pub record State : Type 0 where
  pub tokens : Dict String IgnoreToken
  pub pending : Dict String PendingEvent

pub data Event : Type 0 where
  created modified deleted : Bool → String → Event
  moved : Bool → String → String → Event

unfoldable pub is_member : String → List String → Bool
is_member x [] = false
is_member x (y ∷ ys) = y == x || is_member x ys

-- any(ignored in parts for ignored in folders)
unfoldable pub any_member : List String → List String → Bool
unfolding is_member
any_member [] parts = false
any_member (folder ∷ folders) parts = is_member folder parts || any_member folders parts

module _ (filter : Filter) (paths : Paths) where
  unfoldable pub should_process : String → Bool
  unfolding any_member
  should_process path =
      if not (is_member (paths.suffix_lower path) filter.extensions)
      then false
      else if any_member filter.ignored_folders (paths.parts path)
      then false
      else true

  -- `now` is the clock at the token check, `later` the clock of the event.
  unfoldable pub enqueue : Vault → ℕ → ℕ → String → Bool → State → State
  enqueue vault now later abs_path is_deleted s = elim (paths.relative (paths.resolved abs_path)) [
    | none ↦ s
    | some relative ↦
        let checked =
          check_and_clear_ignore vault now relative (some (paths.resolved abs_path)) s.tokens in
        if checked.1 then record s { tokens = checked.0 } else record {
          tokens = checked.0;
          pending = insert relative (record { deleted = is_deleted; time = later }) s.pending;
        }
  ]

  unfoldable pub enqueue_if : Bool → Vault → ℕ → ℕ → String → Bool → State → State
  unfolding enqueue should_process
  enqueue_if is_directory vault now later path is_deleted s =
      if not is_directory && should_process path
      then enqueue vault now later path is_deleted s
      else s

  -- on_created, on_modified, on_deleted and on_moved.
  unfoldable pub on_event : Vault → ℕ → ℕ → Event → State → State
  unfolding enqueue_if
  on_event vault now later (created is_directory path) s =
      enqueue_if is_directory vault now later path false s
  on_event vault now later (modified is_directory path) s =
      enqueue_if is_directory vault now later path false s
  on_event vault now later (deleted is_directory path) s =
      enqueue_if is_directory vault now later path true s
  on_event vault now later (moved is_directory source dest) s =
      enqueue_if is_directory vault now later dest false
        (enqueue_if is_directory vault now later source true s)
