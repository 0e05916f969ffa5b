-- ===== src/Watching/Ignore/Tokens.antt =====
-- A token hides the event of exactly the revision that was written, once and for a bounded time.
use text.Mathlib.TextEquality.{eq_iff}
use vault_search_mcp.Prelude.{
  ℕ, Option, String, [], arith, false, if◌then◌else◌, leb, length, ltb, none, refl, some, true, ◌+◌,
  ◌<◌, ◌∷◌, ◌≡◌, ◌≤◌, nat_eq, string_eq, Option-cases, inl, inr,
}
use vault_search_mcp.Dict.{Dict, Distinct, lookup, remove}
use vault_search_mcp.Dict.Laws.{
  lookup-insert, insert-Distinct, length-insert, length-remove-le, remove-Distinct,
  lookup-remove_self,
}
use vault_search_mcp.Watching.Ignore.{
  FileRevision, IgnoreToken, Vault, check_and_clear_ignore, evict_oldest, ignore_next_change,
  ignore_token_ttl, mark, matches, max_ignore_tokens, or_vault_file, purge_ignore_tokens,
  revision_of, same_revision, vault_file,
}

abbrev pub Tokens : Type 0
Tokens = Dict String IgnoreToken

-- The token of a path, unless it has expired.
unfoldable pub unexpired : ℕ → Option IgnoreToken → Option IgnoreToken
unexpired now none = none
unexpired now (some token) = if leb token.expires_at now then none else some token

lookup_purge_absent :
    (now : ℕ) (k : String) (d : Tokens)
    → lookup k d ≡ none
    → lookup k (purge_ignore_tokens now d) ≡ none
unfolding purge_ignore_tokens lookup
lookup_purge_absent now k [] h = refl
lookup_purge_absent now k ((j, t) ∷ d) h = ground (arith, lookup_purge_absent now k d)

pub lookup-purge :
    (now : ℕ) (k : String) (d : Tokens)
    → Distinct d
    → lookup k (purge_ignore_tokens now d) ≡ unexpired now (lookup k d)
unfolding purge_ignore_tokens lookup unexpired
lookup-purge now k [] h = refl
lookup-purge now k ((j, t) ∷ d) h =
    ground (arith, lookup-purge now k d h.1, lookup_purge_absent now k d, eq_iff j k)

purge-Distinct : (now : ℕ) (d : Tokens) → Distinct d → Distinct (purge_ignore_tokens now d)
unfolding purge_ignore_tokens
purge-Distinct now [] h = tt
purge-Distinct now ((j, t) ∷ d) h =
    ground (arith, purge-Distinct now d h.1, lookup_purge_absent now j d)

length-evict_oldest : (n : ℕ) (d : Tokens) → 0 < n → length (evict_oldest n d) < n
unfolding evict_oldest
length-evict_oldest n [] p = p
length-evict_oldest n (x ∷ d) p = ground (arith, length-evict_oldest n d p)

evict_oldest-Distinct : (n : ℕ) (d : Tokens) → Distinct d → Distinct (evict_oldest n d)
unfolding evict_oldest
evict_oldest-Distinct n [] h = tt
evict_oldest-Distinct n (x ∷ d) h = ground (arith, evict_oldest-Distinct n d h.1)

pub record IsBounded (d : Tokens) : Type 0 where
  pub distinct : Distinct d
  pub bounded : length d ≤ max_ignore_tokens

mark-IsBounded :
    (now : ℕ) (path : String) (r : FileRevision) (d : Tokens)
    → IsBounded d
    → IsBounded (mark now path r d)
unfolding mark
mark-IsBounded now path r d h =
    let live = remove path (purge_ignore_tokens now d) in
    let kept = evict_oldest max_ignore_tokens live in
    record {
      distinct = insert-Distinct path _ kept (
          evict_oldest-Distinct max_ignore_tokens live
            (remove-Distinct path (purge_ignore_tokens now d) (purge-Distinct now d h.distinct)));
      bounded = ground (
        arith,
        length-insert path (record { revision = r; expires_at = now + ignore_token_ttl }) kept,
        length-evict_oldest max_ignore_tokens live (omega arith),
      );
    }

length-purge-le : (now : ℕ) (d : Tokens) → length (purge_ignore_tokens now d) ≤ length d
unfolding purge_ignore_tokens
length-purge-le now [] = omega arith
length-purge-le now (x ∷ d) = ground (arith, length-purge-le now d)

-- However often changes are marked and checked, no more than 2048 tokens are kept, no path twice.
pub ignore-IsBounded :
    (vault : Vault) (now : ℕ) (path : String) (abs : Option String) (d : Tokens)
    → IsBounded d
    → IsBounded (ignore_next_change vault now path d).0
      × IsBounded (check_and_clear_ignore vault now path abs d).0
unfolding ignore_next_change check_and_clear_ignore
ignore-IsBounded vault now path abs d h = (
  marked,
  record {
    distinct = remove-Distinct path (purge_ignore_tokens now d) (purge-Distinct now d h.distinct);
    bounded = omega (
      arith,
      length-remove-le path (purge_ignore_tokens now d),
      length-purge-le now d,
      h.bounded,
    );
  },
)
  where
    marked : IsBounded (ignore_next_change vault now path d).0
    marked = elim (Option-cases (revision_of vault (vault_file vault path))) [
      | inl e ↦ rw (e, ignore_next_change) h
      | inr (r, e) ↦ rw (e, ignore_next_change) (mark-IsBounded now path r d h)
    ]

lookup-mark :
    (now : ℕ) (path : String) (r : FileRevision) (d : Tokens)
    → lookup path (mark now path r d)
      ≡ some (record { revision = r; expires_at = now + ignore_token_ttl })
unfolding mark
lookup-mark now path r d = ground (
  arith,
  lookup-insert path path (record { revision = r; expires_at = now + ignore_token_ttl })
      (evict_oldest max_ignore_tokens (remove path (purge_ignore_tokens now d))),
  eq_iff path path,
)

matches-none : (o : Option FileRevision) → matches none o ≡ false
unfolding matches
matches-none none = refl
matches-none (some r) = refl

-- After a change was marked, the next event of the path is ignored exactly if it comes within the
-- time to live and finds the very revision that was marked; the token is then used up, so that
-- the event after it is not ignored.
pub check-ignore_next_change :
    (vault seen : Vault) (now later last : ℕ) (path : String) (abs : Option String)
    (r r' : FileRevision) (d : Tokens)
    → IsBounded d
    → revision_of vault (vault_file vault path) ≡ some r
    → revision_of seen (or_vault_file seen abs path) ≡ some r'
    → let marked = ignore_next_change vault now path d in
      let first = check_and_clear_ignore seen later path abs marked.0 in
      (marked.1 ≡ true)
      × (first.1 ≡ (if ltb later (now + ignore_token_ttl) then same_revision r r' else false))
      × ((check_and_clear_ignore seen last path abs first.0).1 ≡ false)
unfolding ignore_next_change check_and_clear_ignore matches mark unexpired
check-ignore_next_change vault seen now later last path abs r r' d h e f =
    rw (e, ignore_next_change)
      (
        refl,
        ground (
          arith,
          lookup-purge later path (mark now path r d) (mark-IsBounded now path r d h).distinct,
          lookup-mark now path r d,
          f,
        ),
        rw
            (lookup_purge_absent last path _
              (lookup-remove_self path (purge_ignore_tokens later (mark now path r d))))
            (matches-none (revision_of seen (or_vault_file seen abs path))),
      )
