-- ===== src/Dict.antt =====
-- Python's `dict`, which keeps the order of insertion, as an association list, oldest entry first.
-- An assignment to a key that is present keeps the key's place; a new key goes to the end.
pub mod Laws
use vault_search_mcp.Prelude.{
  Bool, true, false, Option, none, some, List, [], ◌∷◌, map, ◌==◌, EqType, if◌then◌else◌, ◌≡◌,
}

abbrev pub Dict {ℓ κ} : Type ℓ → Type κ → Type (ℓ ⊔ κ)
Dict K V = List (K × V)

module _ {ℓ κ} {K : Type ℓ} {V : Type κ} where
  -- list(d)
  abbrev pub keys : Dict K V → List K
  keys = map (λ e. e.0)

module _ {ℓ κ} {K : Type ℓ} {V : Type κ} ⦃e : EqType K⦄ where
  -- d.get(k)
  unfoldable pub lookup : K → Dict K V → Option V
  lookup k [] = none
  lookup k ((j, v) ∷ d) = if j == k then some v else lookup k d

  -- k in d
  unfoldable pub contains : K → Dict K V → Bool
  contains k [] = false
  contains k ((j, v) ∷ d) = if j == k then true else contains k d

  -- d[k] = v
  unfoldable pub insert : K → V → Dict K V → Dict K V
  insert k v [] = (k, v) ∷ []
  insert k v ((j, w) ∷ d) = if j == k then (j, v) ∷ d else (j, w) ∷ insert k v d

  -- d.pop(k, None)
  unfoldable pub remove : K → Dict K V → Dict K V
  remove k [] = []
  remove k ((j, v) ∷ d) = if j == k then remove k d else (j, v) ∷ remove k d

  -- No key stands twice, as in every dictionary that the operations build.
  abbrev pub Distinct : Dict K V → Type κ
  Distinct [] = Unit
  Distinct ((j, v) ∷ d) = (lookup j d ≡ none) × Distinct d
