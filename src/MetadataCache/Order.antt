-- ===== src/MetadataCache/Order.antt =====
-- What the methods of the cache do to its entries, in their order of use.
use vault_search_mcp.Prelude.{
  ℕ, Bool-cases, Option-cases, [], ap, arith, drop, inl, inr, leb, length, refl, suc, zero, ◌++◌,
  ◌-◌, ◌<◌, ◌∷◌, ◌≡◌, ◌≤◌, nat_eq, string_eq, List, false, some, sym, true, ◌∙◌,
}
use vault_search_mcp.Prelude.Result.{ok}
use vault_search_mcp.Dict.{Dict, Distinct, lookup, remove}
use vault_search_mcp.Dict.Laws.{
  contains-eq-lookup, insert_absent, insert_behind, length-remove, lookup-drop_absent,
  lookup-remove_self, remove_absent,
}
use vault_search_mcp.MetadataCache.{CacheKey, cache_key_eq, Cache, evict, move_to_end, set}

pub record IsValid {ℓ} {M : Type ℓ} (c : Cache M) : Type ℓ where
  pub positive : 0 < c.max_size
  pub bounded : length c.entries ≤ c.max_size
  pub distinct : Distinct c.entries

module _ {ℓ} {A : Type ℓ} where
  drop_none : {k : ℕ} (d : List A) → k ≡ 0 → drop k d ≡ d
  drop_none d e = rw e

  drop_again : {k j : ℕ} (a : A) (d : List A) → k ≡ suc j → drop j d ≡ drop k (a ∷ d)
  drop_again a d e = rw e

leb-true : (n m : ℕ) → leb n m ≡ true → n ≤ m
leb-true n m h = ground arith

leb-false : (n m : ℕ) → leb n m ≡ false → m < n
leb-false n m h = ground arith

module _ {ℓ} {M : Type ℓ} where
  evict_lem : (n : ℕ) (d : Dict CacheKey M) → 0 < n → evict n d ≡ ok (drop (suc (length d) - n) d)
  unfolding evict
  evict_lem n [] p = ground (arith, drop_nil (suc 0 - n))
    where
      drop_nil : (k : ℕ) → drop {A = CacheKey × M} k [] ≡ []
      drop_nil zero = refl
      drop_nil (suc k) = refl
  evict_lem n (e ∷ d) p = elim (Bool-cases (leb n (length (e ∷ d)))) [
    | inl t ↦
        rw (t, evict_lem n d p)
          (ap ok (drop_again e d (omega (arith, leb-true n (length (e ∷ d)) t))))
    | inr f ↦ rw f (ap ok (sym (drop_none (e ∷ d) (omega (arith, leb-false n (length (e ∷ d)) f)))))
  ]

  -- `set` makes the entry the most recently used one and evicts the least recently used entries,
  -- no more than the limit asks for.
  pub set_lem :
      (key : CacheKey) (m : M) (c : Cache M)
      → IsValid c
      → let others = remove key c.entries in
        set key m c
        ≡ ok
            (record c { entries = drop (suc (length others) - c.max_size) others ++ (key, m) ∷ [] })
  unfolding set move_to_end
  set_lem key m c v = elim (Option-cases (lookup key c.entries)) [
    | inl e ↦
        rw (e, set, evict_lem c.max_size c.entries v.positive, remove_absent key c.entries e)
          (ap (λ d. ok (record c { entries = d }))
            (insert_absent key m _ (lookup-drop_absent key _ c.entries e)))
    | inr (w, e) ↦
        rw (e, set)
          (ap (λ d. ok (record c { entries = d }))
            (insert_behind key m w (remove key c.entries) (lookup-remove_self key c.entries)
              ∙ ap (λ d. d ++ (key, m) ∷ []) (sym (drop_none (remove key c.entries) (room w e)))))
  ]
    where
      room :
          (w : M)
          → lookup key c.entries ≡ some w
          → suc (length (remove key c.entries)) - c.max_size ≡ 0
      room w e = ground (
        arith,
        length-remove key c.entries v.distinct,
        contains-eq-lookup key c.entries,
        v.bounded,
      )
