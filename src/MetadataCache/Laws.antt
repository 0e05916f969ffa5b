-- ===== src/MetadataCache/Laws.antt =====
-- The contract of the cache: what a client reads after a call, the bound, and invalidation.
use vault_search_mcp.Prelude.{
  ℕ, Option, none, Option-cases, [], arith, drop, inl, inr, length, length-append, length-drop,
  some, suc, ◌++◌, ◌+◌, ◌-◌, ◌<◌, ◌∷◌, ◌≡◌, ◌≤◌, nat_eq, string_eq, refl,
}
use vault_search_mcp.Prelude.Result.{ok}
use vault_search_mcp.Dict.{Dict, lookup, remove}
use vault_search_mcp.Dict.Laws.{
  append-Distinct, drop-Distinct, lookup-drop_absent, lookup-remove_self, remove-Distinct,
  contains-eq-lookup, length-remove, lookup-moved, lookup_behind,
}
use vault_search_mcp.MetadataCache.{CacheKey, cache_key_eq, Cache, get, set, move_to_end}
use vault_search_mcp.MetadataCache.Order.{IsValid, set_lem}

module _ {ℓ} {M : Type ℓ} where
  length-after_set :
      (n : ℕ) (d : Dict CacheKey M) (x : CacheKey × M)
      → 0 < n
      → length (drop (suc (length d) - n) d ++ x ∷ []) ≤ n
  length-after_set n d x p = omega (
    arith,
    length-append (drop (suc (length d) - n) d) (x ∷ []),
    length-drop (suc (length d) - n) d,
  )

  -- On a valid cache `set` returns a valid cache, within the limit, from which the stored metadata
  -- is read back; it holds the entry as the most recently used one, behind the most recent of the
  -- others.
  pub set-IsValid :
      (key : CacheKey) (m : M) (c : Cache M)
      → IsValid c
      → (c' : Cache M) × (set key m c ≡ ok c') × IsValid c' × ((get key c').1 ≡ some m)
  unfolding get lookup
  set-IsValid key m c v =
      let others = remove key c.entries in
      let n = suc (length others) - c.max_size in
      let gone = lookup-drop_absent key n others (lookup-remove_self key c.entries) in
      (
        record c { entries = drop n others ++ (key, m) ∷ [] },
        set_lem key m c v,
        record {
          positive = v.positive;
          bounded = length-after_set c.max_size others (key, m) v.positive;
          distinct =
              append-Distinct key m (drop n others) gone
                (drop-Distinct n others (remove-Distinct key c.entries v.distinct));
        },
        ground (arith, lookup_behind key m (drop n others) gone),
      )

  -- An entry that was found is the most recently used one, behind the others in their order.
  unfoldable pub used : CacheKey → Option M → Dict CacheKey M → Dict CacheKey M
  used key none entries = entries
  used key (some m) entries = remove key entries ++ (key, m) ∷ []

  abbrev hit_count : Option M → ℕ
  hit_count none = 0
  hit_count (some m) = 1

  abbrev miss_count : Option M → ℕ
  miss_count none = 1
  miss_count (some m) = 0

  -- `get` returns what is stored and changes nothing that a later `get` can read. What it finds, it
  -- counts as a hit and puts last, as the most recently used; what it does not find, it counts as a
  -- miss, and leaves the entries as they are. It keeps the cache valid.
  pub get_lem :
      (key j : CacheKey) (c : Cache M)
      → IsValid c
      → ((get key c).1 ≡ lookup key c.entries)
        × (lookup j (get key c).0.entries ≡ lookup j c.entries)
        × ((get key c).0.entries ≡ used key (lookup key c.entries) c.entries)
        × ((get key c).0.hits ≡ c.hits + hit_count (lookup key c.entries))
        × ((get key c).0.misses ≡ c.misses + miss_count (lookup key c.entries))
        × IsValid (get key c).0
  unfolding get move_to_end used
  get_lem key j c v = elim (Option-cases (lookup key c.entries)) [
    | inl e ↦
        rw (e, get)
          (
            refl,
            refl,
            refl,
            omega arith,
            omega arith,
            record { positive = v.positive; bounded = v.bounded; distinct = v.distinct },
          )
    | inr (m, e) ↦
        rw (e, get)
          (
            refl,
            ground (arith, lookup-moved key j m c.entries, cache_key_eq.beq_iff key j),
            refl,
            omega arith,
            omega arith,
            record {
              positive = v.positive;
              bounded = ground (
                arith,
                length-append (remove key c.entries) ((key, m) ∷ []),
                length-remove key c.entries v.distinct,
                contains-eq-lookup key c.entries,
                v.bounded,
              );
              distinct =
                  append-Distinct key m (remove key c.entries) (lookup-remove_self key c.entries)
                    (remove-Distinct key c.entries v.distinct);
            },
          )
  ]
