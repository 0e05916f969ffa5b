-- ===== src/MetadataCache/Invalidation.antt =====
-- `invalidate` drops exactly the entries of one path.
use vault_search_mcp.Prelude.{
  Bool, List, String, [], ap, arith, false, if◌then◌else◌, length, none, refl, true, ◌+◌, ◌==◌, ◌∙◌,
  ◌∷◌, ◌≡◌, nat_eq, string_eq,
}
use vault_search_mcp.Dict.{Dict, contains, lookup, remove}
use vault_search_mcp.MetadataCache.{
  CacheKey, cache_key_eq, Cache, invalidate, path_keys, remove_all, same_key, same_key_iff,
}

is_listed : CacheKey → List CacheKey → Bool
is_listed k [] = false
is_listed k (j ∷ js) = if same_key k j then true else is_listed k js

module _ {ℓ} {M : Type ℓ} where
  -- The entries of the other paths, in their order.
  unfoldable pub without : String → Dict CacheKey M → Dict CacheKey M
  without path [] = []
  without path ((k, m) ∷ d) = if k.path == path then without path d else (k, m) ∷ without path d

  remove_all-nil : (ks : List CacheKey) → remove_all {M = M} ks [] ≡ []
  unfolding remove_all remove
  remove_all-nil [] = refl
  remove_all-nil (k ∷ ks) = remove_all-nil ks

  remove_all-cons :
      (ks : List CacheKey) (k : CacheKey) (m : M) (d : Dict CacheKey M)
      → remove_all ks ((k, m) ∷ d)
        ≡ (if is_listed k ks then remove_all ks d else (k, m) ∷ remove_all ks d)
  unfolding remove_all remove is_listed
  remove_all-cons [] k m d = refl
  remove_all-cons (j ∷ js) k m d = ground (arith, remove_all-cons js k m (remove j d))

  is_listed-path_keys :
      (path : String) (k : CacheKey) (d : Dict CacheKey M)
      → is_listed k (path_keys path d) ≡ (if k.path == path then contains k d else false)
  unfolding is_listed path_keys contains
  is_listed-path_keys path k [] = ground arith
  is_listed-path_keys path k ((j, m) ∷ d) =
      ground (arith, is_listed-path_keys path k d, same_key_iff j k, same_key_iff k j)

  remove_all-without :
      (path : String) (ks : List CacheKey) (d : Dict CacheKey M)
      → ((k : CacheKey) → contains k d ≡ true → is_listed k ks ≡ (k.path == path))
      → remove_all ks d ≡ without path d
  unfolding without contains
  remove_all-without path ks [] h = remove_all-nil ks
  remove_all-without path ks ((k, m) ∷ d) h = ground (
    arith,
    remove_all-cons ks k m d,
    h k,
    same_key_iff k k,
    remove_all-without path ks d (λ j c. h j (ground arith)),
  )

  length-without :
      (path : String) (d : Dict CacheKey M)
      → length (path_keys path d) + length (without path d) ≡ length d
  unfolding without path_keys
  length-without path [] = omega arith
  length-without path ((k, m) ∷ d) = ground (arith, length-without path d)

  lookup-without :
      (path : String) (k : CacheKey) (d : Dict CacheKey M)
      → lookup k (without path d) ≡ (if k.path == path then none else lookup k d)
  unfolding without lookup
  lookup-without path k [] = ground arith
  lookup-without path k ((j, m) ∷ d) = ground (arith, lookup-without path k d, same_key_iff j k)

  -- `invalidate` removes every entry of the path and no other, keeps the order of the rest, and
  -- returns the number of entries that it removed.
  pub invalidate_lem :
      (path : String) (k : CacheKey) (c : Cache M)
      → ((invalidate path c).0.entries ≡ without path c.entries)
        × (lookup k (invalidate path c).0.entries
            ≡ (if k.path == path then none else lookup k c.entries))
        × ((invalidate path c).1 + length (invalidate path c).0.entries ≡ length c.entries)
  unfolding invalidate
  invalidate_lem path k c =
      let d = c.entries in
      let same =
        remove_all-without path (path_keys path d) d
          (λ k h. ground (arith, is_listed-path_keys path k d)) in
      (
        same,
        ap (lookup k) same ∙ lookup-without path k d,
        ap (λ (e : Dict CacheKey M). length (path_keys path d) + length e) same
            ∙ length-without path d,
      )
