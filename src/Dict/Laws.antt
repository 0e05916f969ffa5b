-- ===== src/Dict/Laws.antt =====
-- The laws by which the components use dictionaries.
use vault_search_mcp.Prelude.{
  suc, ◌≡◌, refl, none, some, [], ◌∷◌, ◌==◌, EqType, arith, length, is_some, if◌then◌else◌, false,
  true, ◌≤◌, nat_eq, string_eq, drop, zero, ℕ, ◌++◌,
}
use vault_search_mcp.Dict.{Dict, lookup, contains, insert, remove, Distinct}

module _ {ℓ κ} {K : Type ℓ} {V : Type κ} ⦃e : EqType K⦄ where
  pub lookup-insert :
      (k j : K) (v : V) (d : Dict K V)
      → lookup j (insert k v d) ≡ (if k == j then some v else lookup j d)
  unfolding lookup insert
  lookup-insert k j v [] = refl
  lookup-insert k j v ((i, w) ∷ d) =
      ground (arith, e.beq_iff k j, e.beq_iff i k, e.beq_iff i j, lookup-insert k j v d)

  pub lookup-remove :
      (k j : K) (d : Dict K V) → lookup j (remove k d) ≡ (if k == j then none else lookup j d)
  unfolding lookup remove
  lookup-remove k j [] = ground arith
  lookup-remove k j ((i, w) ∷ d) =
      ground (arith, e.beq_iff k j, e.beq_iff i k, e.beq_iff i j, lookup-remove k j d)

  pub contains-eq-lookup : (k : K) (d : Dict K V) → contains k d ≡ is_some (lookup k d)
  unfolding lookup contains
  contains-eq-lookup k [] = refl
  contains-eq-lookup k ((j, v) ∷ d) = ground (arith, contains-eq-lookup k d)

  pub length-insert :
      (k : K) (v : V) (d : Dict K V)
      → length (insert k v d) ≡ (if contains k d then length d else suc (length d))
  unfolding insert contains
  length-insert k v [] = refl
  length-insert k v ((j, w) ∷ d) = ground (arith, length-insert k v d)

  pub insert-Distinct : (k : K) (v : V) (d : Dict K V) → Distinct d → Distinct (insert k v d)
  unfolding lookup insert
  insert-Distinct k v [] h = (refl, tt)
  insert-Distinct k v ((j, w) ∷ d) h =
      ground (arith, insert-Distinct k v d h.1, lookup-insert k j v d, e.beq_iff k j, e.beq_iff j k)

  pub remove-Distinct : (k : K) (d : Dict K V) → Distinct d → Distinct (remove k d)
  unfolding lookup remove
  remove-Distinct k [] h = tt
  remove-Distinct k ((j, w) ∷ d) h = ground (arith, remove-Distinct k d h.1, lookup-remove k j d)

  pub remove_absent : (k : K) (d : Dict K V) → lookup k d ≡ none → remove k d ≡ d
  unfolding lookup remove
  remove_absent k [] h = refl
  remove_absent k ((j, w) ∷ d) h = ground (arith, remove_absent k d)

  pub length-remove :
      (k : K) (d : Dict K V)
      → Distinct d
      → length d ≡ (if contains k d then suc (length (remove k d)) else length (remove k d))
  unfolding contains remove
  length-remove k [] h = refl
  length-remove k ((j, w) ∷ d) h =
      ground
        (arith, length-remove k d h.1, contains-eq-lookup k d, e.beq_iff j k, remove_absent k d)

  pub contains-insert :
      (k j : K) (v : V) (d : Dict K V)
      → contains j (insert k v d) ≡ (if k == j then true else contains j d)
  unfolding contains insert
  contains-insert k j v [] = refl
  contains-insert k j v ((i, w) ∷ d) =
      ground (arith, e.beq_iff k j, e.beq_iff i k, e.beq_iff i j, contains-insert k j v d)

  pub contains-remove :
      (k j : K) (d : Dict K V) → contains j (remove k d) ≡ (if k == j then false else contains j d)
  unfolding contains remove
  contains-remove k j [] = ground arith
  contains-remove k j ((i, w) ∷ d) =
      ground (arith, e.beq_iff k j, e.beq_iff i k, e.beq_iff i j, contains-remove k j d)

  pub length-remove-le : (k : K) (d : Dict K V) → length (remove k d) ≤ length d
  unfolding remove
  length-remove-le k [] = omega arith
  length-remove-le k ((i, w) ∷ d) = ground (arith, length-remove-le k d)

  -- A new key goes to the end.
  pub insert_absent :
      (k : K) (v : V) (d : Dict K V) → lookup k d ≡ none → insert k v d ≡ d ++ (k, v) ∷ []
  unfolding lookup insert
  insert_absent k v [] h = refl
  insert_absent k v ((j, w) ∷ d) h = ground (arith, insert_absent k v d)

  pub lookup-append :
      (k : K) (c d : Dict K V)
      → lookup k (c ++ d) ≡ (if contains k c then lookup k c else lookup k d)
  unfolding lookup contains
  lookup-append k [] d = refl
  lookup-append k ((j, w) ∷ c) d = ground (arith, lookup-append k c d)

  pub insert_behind :
      (k : K) (v w : V) (d : Dict K V)
      → lookup k d ≡ none
      → insert k v (d ++ (k, w) ∷ []) ≡ d ++ (k, v) ∷ []
  unfolding lookup insert
  insert_behind k v w [] h = ground (arith, e.beq_iff k k)
  insert_behind k v w ((j, u) ∷ d) h = ground (arith, insert_behind k v w d)

  pub lookup-remove_self : (k : K) (d : Dict K V) → lookup k (remove k d) ≡ none
  lookup-remove_self k d = ground (arith, lookup-remove k k d, e.beq_iff k k)

  pub append-Distinct :
      (k : K) (v : V) (d : Dict K V) → lookup k d ≡ none → Distinct d → Distinct (d ++ (k, v) ∷ [])
  append-Distinct k v d h s = rw (← insert_absent k v d h) (insert-Distinct k v d s)

  pub drop-Distinct : (n : ℕ) (d : Dict K V) → Distinct d → Distinct (drop n d)
  drop-Distinct zero d h = h
  drop-Distinct (suc n) [] h = tt
  drop-Distinct (suc n) (x ∷ d) h = drop-Distinct n d h.1

  pub lookup-drop_absent :
      (k : K) (n : ℕ) (d : Dict K V) → lookup k d ≡ none → lookup k (drop n d) ≡ none
  unfolding lookup
  lookup-drop_absent k zero d h = h
  lookup-drop_absent k (suc n) [] h = refl
  lookup-drop_absent k (suc n) ((j, w) ∷ d) h = lookup-drop_absent k n d (ground arith)

  pub lookup_behind :
      (k : K) (v : V) (d : Dict K V) → lookup k d ≡ none → lookup k (d ++ (k, v) ∷ []) ≡ some v
  unfolding lookup
  lookup_behind k v [] h = ground (arith, e.beq_iff k k)
  lookup_behind k v ((j, w) ∷ d) h = ground (arith, lookup_behind k v d)

  pub lookup-moved :
      (k j : K) (v : V) (d : Dict K V)
      → lookup j (remove k d ++ (k, v) ∷ []) ≡ (if k == j then some v else lookup j d)
  unfolding lookup remove
  lookup-moved k j v [] = refl
  lookup-moved k j v ((i, w) ∷ d) =
      ground (arith, e.beq_iff k j, e.beq_iff i k, e.beq_iff i j, lookup-moved k j v d)
