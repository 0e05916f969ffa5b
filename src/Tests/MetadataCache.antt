-- ===== src/Tests/MetadataCache.antt =====
-- The metadata cache of src/vault_search/crud/cache.py, run with two entries.
use vault_search_mcp.Prelude.{
  ℕ, [], ◌∷◌, ◌≡◌, refl, arith, none, some, length, ◌+◌, nat_eq, string_eq,
}
use vault_search_mcp.Prelude.Result.{ok}
use vault_search_mcp.Dict.{lookup, remove}
use vault_search_mcp.MetadataCache.{cache_key_eq, Cache, CacheKey, set, get, invalidate}
use vault_search_mcp.MetadataCache.Order.{IsValid, set_lem}
use vault_search_mcp.MetadataCache.Laws.{set-IsValid, get_lem, used}
use vault_search_mcp.MetadataCache.Invalidation.{invalidate_lem, without}

abbrev a : CacheKey
a = record { path = "a.md"; mtime_ns = 1; size = 5 }

abbrev b : CacheKey
b = record { path = "b.md"; mtime_ns = 1; size = 7 }

abbrev newer_a : CacheKey
newer_a = record { path = "a.md"; mtime_ns = 2; size = 5 }

-- Both places are taken; a.md was used last.
abbrev full : Cache ℕ
full = record { max_size = 2; entries = (b, 20) ∷ (a, 10) ∷ []; hits = 0; misses = 0 }

full-IsValid : IsValid full
unfolding lookup
full-IsValid = record {
  positive = omega arith;
  bounded = omega arith;
  distinct = (refl, (refl, tt));
}

set_lem_example : set newer_a 11 full ≡ ok (record full { entries = (a, 10) ∷ (newer_a, 11) ∷ [] })
unfolding remove
set_lem_example = set_lem newer_a 11 full full-IsValid

set-IsValid_example :
    (c' : Cache ℕ) × (set newer_a 11 full ≡ ok c') × IsValid c' × ((get newer_a c').1 ≡ some 11)
set-IsValid_example = set-IsValid newer_a 11 full full-IsValid

get_lem_example :
    ((get b full).1 ≡ some 20)
    × (lookup a (get b full).0.entries ≡ some 10)
    × ((get b full).0.entries ≡ (a, 10) ∷ (b, 20) ∷ [])
    × ((get b full).0.hits ≡ 1)
    × ((get b full).0.misses ≡ 0)
    × IsValid (get b full).0
unfolding lookup used remove
get_lem_example = get_lem b a full full-IsValid

invalidate_lem_example :
    ((invalidate "a.md" full).0.entries ≡ (b, 20) ∷ [])
    × (lookup a (invalidate "a.md" full).0.entries ≡ none)
    × ((invalidate "a.md" full).1 + length (invalidate "a.md" full).0.entries ≡ 2)
unfolding without lookup
invalidate_lem_example = invalidate_lem "a.md" a full
