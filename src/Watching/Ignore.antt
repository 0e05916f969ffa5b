-- ===== src/Watching/Ignore.antt =====
-- The ignore tokens of src/vault_search/watching/event_handler.py. The files are read through
-- `Vault`, which stands for the file system at the time of a call.
pub mod Tokens
use text.Mathlib.TextEquality.{eq_iff}
use vault_search_mcp.Prelude.{
  ℕ, Bool, Option, String, [], arith, false, if◌then◌else◌, leb, length, nat_beq, none, some, true,
  ◌&&◌, ◌+◌, ◌↔◌, ◌∷◌, ◌≡◌, EqType, nat_eq, string_eq,
}
use vault_search_mcp.Dict.{Dict, insert, lookup, remove}

pub record FileRevision : Type 0 where
  pub inode : ℕ
  pub mtime_ns : ℕ
  pub size : ℕ

abbrev pub same_revision : FileRevision → FileRevision → Bool
same_revision a b =
    nat_beq a.inode b.inode && (nat_beq a.mtime_ns b.mtime_ns && nat_beq a.size b.size)

pub same_revision_iff : (a b : FileRevision) → (same_revision a b ≡ true) ↔ (a ≡ b)
same_revision_iff a b = ground arith

pub record IgnoreToken : Type 0 where
  pub revision : FileRevision
  pub expires_at : ℕ

-- What pathlib and the file system answer: whether a path is absolute, where it leads from the
-- vault's root once links are followed, whether a resolved path is inside the root, and `stat`,
-- which fails with an OSError as `none`.
pub record Vault : Type 0 where
  pub is_absolute : String → Bool
  pub resolve : String → String
  pub is_inside : String → Bool
  pub stat : String → Option FileRevision

abbrev pub ignore_token_ttl : ℕ
ignore_token_ttl = 30000

abbrev pub max_ignore_tokens : ℕ
max_ignore_tokens = 2048

unfoldable pub file_revision : Vault → String → Option FileRevision
file_revision vault path = vault.stat path

unfoldable pub vault_file : Vault → String → Option String
vault_file vault relative_path =
    if vault.is_absolute relative_path
    then none
    else let candidate = vault.resolve relative_path in
      if vault.is_inside candidate then some candidate else none

-- `_file_revision(path) if path is not None else None`
unfoldable pub revision_of : Vault → Option String → Option FileRevision
unfolding file_revision
revision_of vault none = none
revision_of vault (some path) = file_revision vault path

unfoldable pub purge_ignore_tokens : ℕ → Dict String IgnoreToken → Dict String IgnoreToken
purge_ignore_tokens now [] = []
purge_ignore_tokens now ((path, token) ∷ tokens) =
    let rest = purge_ignore_tokens now tokens in
    if leb token.expires_at now then rest else (path, token) ∷ rest

-- The loop that drops the oldest tokens.
unfoldable pub evict_oldest : ℕ → Dict String IgnoreToken → Dict String IgnoreToken
evict_oldest limit [] = []
evict_oldest limit (entry ∷ tokens) =
    if leb limit (length (entry ∷ tokens)) then evict_oldest limit tokens else entry ∷ tokens

-- The block under the lock, with the revision that was read.
unfoldable pub mark : ℕ → String → FileRevision → Dict String IgnoreToken → Dict String IgnoreToken
unfolding purge_ignore_tokens evict_oldest
mark now relative_path revision tokens =
    insert relative_path (record { revision = revision; expires_at = now + ignore_token_ttl })
      (evict_oldest max_ignore_tokens (remove relative_path (purge_ignore_tokens now tokens)))

unfoldable pub ignore_next_change :
    Vault → ℕ → String → Dict String IgnoreToken → Dict String IgnoreToken × Bool
unfolding vault_file revision_of mark
ignore_next_change vault now relative_path tokens =
    elim (revision_of vault (vault_file vault relative_path)) [
      | none ↦ (tokens, false)
      | some revision ↦ (mark now relative_path revision tokens, true)
    ]

-- `absolute_path or _vault_file(relative_path)`
unfoldable pub or_vault_file : Vault → Option String → String → Option String
unfolding vault_file
or_vault_file vault (some path) relative_path = some path
or_vault_file vault none relative_path = vault_file vault relative_path

unfoldable pub matches : Option IgnoreToken → Option FileRevision → Bool
matches (some token) (some revision) = same_revision token.revision revision
matches _ _ = false

unfoldable pub check_and_clear_ignore :
    Vault → ℕ → String → Option String → Dict String IgnoreToken → Dict String IgnoreToken × Bool
unfolding revision_of or_vault_file purge_ignore_tokens matches
check_and_clear_ignore vault now relative_path absolute_path tokens =
    let revision = revision_of vault (or_vault_file vault absolute_path relative_path) in
    let live = purge_ignore_tokens now tokens in
    (remove relative_path live, matches (lookup relative_path live) revision)
