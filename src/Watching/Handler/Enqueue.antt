-- ===== src/Watching/Handler/Enqueue.antt =====
-- Which events of the watcher become pending: `_enqueue` and the filter before it.
use text.Mathlib.TextEquality.{eq_iff}
use vault_search_mcp.Prelude.{
  ℕ, Bool, List, String, [], arith, false, if◌then◌else◌, none, not, some, true, ◌&&◌, ◌==◌, ◌∷◌,
  ◌≡◌, nat_eq, string_eq, refl, ◌⊎◌, inl, inr, Option-cases, Bool-cases,
}
use vault_search_mcp.Dict.{lookup}
use vault_search_mcp.Dict.Laws.{lookup-insert}
use vault_search_mcp.Watching.Ignore.{Vault, check_and_clear_ignore}
use vault_search_mcp.Watching.Handler.{
  Filter, Paths, State, any_member, enqueue, enqueue_if, is_member, should_process,
}

-- The name is in the list, and no name is in both lists.
abbrev In : String → List String → Type 0
In x [] = ⊥
In x (y ∷ ys) = (y ≡ x) ⊎ In x ys

abbrev Apart : List String → List String → Type 0
Apart xs ys = (x : String) → In x xs → ¬ In x ys

module _ (filter : Filter) (paths : Paths) where
  -- An event that is to be indexed: of a file, with an extension that is indexed, below no folder
  -- that is ignored, at this path in the vault, and hidden by no token.
  pub record Noticed (is_directory : Bool) (vault : Vault) (now : ℕ) (path relative : String)
      (s : State) : Type 0 where
    pub is_file : is_directory ≡ false
    pub extension : In (paths.suffix_lower path) filter.extensions
    pub folders : Apart filter.ignored_folders (paths.parts path)
    pub inside : paths.relative (paths.resolved path) ≡ some relative
    pub foreign :
        (check_and_clear_ignore vault now relative (some (paths.resolved path)) s.tokens).1 ≡ false

is_member-In : (x : String) (ys : List String) → In x ys → is_member x ys ≡ true
unfolding is_member
is_member-In x [] h = absurd h
is_member-In x (y ∷ ys) (inl e) = ground (arith, eq_iff y x)
is_member-In x (y ∷ ys) (inr h) = ground (arith, is_member-In x ys h)

In-is_member : (x : String) (ys : List String) → is_member x ys ≡ true → In x ys
unfolding is_member
In-is_member x [] h = absurd (ground arith)
In-is_member x (y ∷ ys) h = elim (Bool-cases (y == x)) [
  | inl e ↦ inl ((eq_iff y x).0 e)
  | inr n ↦ inr (In-is_member x ys (ground arith))
]

Apart-any_member : (xs ys : List String) → Apart xs ys → any_member xs ys ≡ false
unfolding any_member
Apart-any_member [] ys h = refl
Apart-any_member (x ∷ xs) ys h = elim (Bool-cases (is_member x ys)) [
  | inl e ↦ absurd (h x (inl refl) (In-is_member x ys e))
  | inr n ↦ rw n (Apart-any_member xs ys (λ z p. h z (inr p)))
]

any_member-Apart : (xs ys : List String) → any_member xs ys ≡ false → Apart xs ys
unfolding any_member
any_member-Apart [] ys h z p q = absurd p
any_member-Apart (x ∷ xs) ys h z (inl e) q = absurd (ground (arith, is_member-In x ys (rw e q)))
any_member-Apart (x ∷ xs) ys h z (inr p) q = any_member-Apart xs ys (ground arith) z p q

module _ (filter : Filter) (paths : Paths) where
  processed :
      (path : String)
      → should_process filter paths path ≡ true
      → In (paths.suffix_lower path) filter.extensions
        × Apart filter.ignored_folders (paths.parts path)
  unfolding should_process
  processed path h = (
    In-is_member (paths.suffix_lower path) filter.extensions (ground arith),
    any_member-Apart filter.ignored_folders (paths.parts path) (ground arith),
  )

  to_process :
      (path : String)
      → In (paths.suffix_lower path) filter.extensions
      → Apart filter.ignored_folders (paths.parts path)
      → should_process filter paths path ≡ true
  unfolding should_process
  to_process path i a = ground (
    arith,
    is_member-In (paths.suffix_lower path) filter.extensions i,
    Apart-any_member filter.ignored_folders (paths.parts path) a,
  )

  module _ (is_directory : Bool) (vault : Vault) (now later : ℕ) (path : String) (is_deleted : Bool)
      (s : State) where
    abbrev after : State
    after = enqueue_if filter paths is_directory vault now later path is_deleted s

    abbrev check : String → Bool
    check relative =
        (check_and_clear_ignore vault now relative (some (paths.resolved path)) s.tokens).1

    skipped :
        not is_directory && should_process filter paths path ≡ false → after.pending ≡ s.pending
    unfolding enqueue_if
    skipped h = rw h refl

    left :
        is_directory ≡ false
        → should_process filter paths path ≡ true
        → paths.relative (paths.resolved path) ≡ none
        → after.pending ≡ s.pending
    unfolding enqueue_if enqueue
    left f p o = ground arith

    ignored :
        is_directory ≡ false
        → should_process filter paths path ≡ true
        → (relative : String) → paths.relative (paths.resolved path) ≡ some relative
        → check relative ≡ true
        → after.pending ≡ s.pending
    unfolding enqueue_if enqueue
    ignored f p relative i h = ground arith

    pending :
        is_directory ≡ false
        → should_process filter paths path ≡ true
        → (relative : String) → paths.relative (paths.resolved path) ≡ some relative
        → check relative ≡ false
        → (j : String)
        → lookup j after.pending ≡ (
            if relative == j
            then some (record { deleted = is_deleted; time = later })
            else lookup j s.pending)
    unfolding enqueue_if enqueue
    pending f p relative i h j =
        ground (
          arith,
          lookup-insert relative j (record { deleted = is_deleted; time = later }) s.pending,
        )

    seen :
        (r relative : String)
        → paths.relative (paths.resolved path) ≡ some relative
        → check relative ≡ true
        → Noticed filter paths is_directory vault now path r s
        → ⊥
    seen r relative i h n = ground (arith, n.inside, n.foreign)

    -- Every event is either to be indexed, and then it is pending afterwards under its path in the
    -- vault, with its own kind and time in place of an older event of the path, the other paths
    -- being untouched; or it is not, and nothing pending changes. It is to be indexed exactly if it
    -- is of a file, with an extension that is indexed, below no folder that is ignored, inside the
    -- vault, and hidden by no token.
    pub enqueue_if_lem :
        ((relative : String) × Noticed filter paths is_directory vault now path relative s
          × ((j : String)
              → lookup j after.pending ≡ (
                  if relative == j
                  then some (record { deleted = is_deleted; time = later })
                  else lookup j s.pending)))
        ⊎ (((relative : String) → ¬ Noticed filter paths is_directory vault now path relative s)
            × (after.pending ≡ s.pending))
    enqueue_if_lem = elim (Bool-cases is_directory) [
      | inl e ↦ inr (λ r n. absurd (ground (arith, n.is_file)), skipped (ground arith))
      | inr file ↦ elim (Bool-cases (should_process filter paths path)) [
        | inr e ↦ inr (
          λ r n. absurd (ground (arith, to_process path n.extension n.folders)),
          skipped (ground arith),
        )
        | inl e ↦ elim (Option-cases (paths.relative (paths.resolved path))) [
          | inl outside ↦ inr (λ r n. absurd (ground (arith, n.inside)), left file e outside)
          | inr (relative, inside) ↦ elim (Bool-cases (check relative)) [
            | inl hidden ↦ inr (
              λ r n. absurd (seen r relative inside hidden n),
              ignored file e relative inside hidden,
            )
            | inr foreign ↦ inl (
              relative,
              record {
                is_file = file;
                extension = (processed path e).0;
                folders = (processed path e).1;
                inside = inside;
                foreign = foreign;
              },
              pending file e relative inside foreign,
            )
          ]
        ]
      ]
    ]
