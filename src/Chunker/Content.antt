-- ===== src/Chunker/Content.antt =====
-- Chunking loses nothing but separator characters, and an overlap only repeats text.
use mathlib.Core.List.{append_assoc, append-nil}
use vault_search_mcp.Prelude.{
  ℕ, Bool, Bool-cases, List, [], ap, arith, drop, false, if◌then◌else◌, inl, inr, leb, length, refl,
  suc, true, zero, ◌++◌, ◌==◌, ◌||◌, ◌∷◌, ◌≡◌, nat_eq, string_eq, ◌-◌, length-drop, ltb,
  take-append-drop, ◌<◌, ◌≤◌, All, ◌∙◌,
}
use vault_search_mcp.Prelude.Text.{Text}
use vault_search_mcp.Prelude.Result.{Returns, Returns-bind, Returns-map, ok}
use vault_search_mcp.Chunker.{
  candidate, emit, group, is_prefix, split_from, cuts, hard_cuts, refine, Result,
  chunk_with_separators,
}
use vault_search_mcp.Chunker.Bounds.{NonEmpty, split_ok}

abbrev pub concat : List Text → Text
concat [] = []
concat (t ∷ ts) = t ++ concat ts

concat-append : (xs ys : List Text) → concat (xs ++ ys) ≡ concat xs ++ concat ys
concat-append [] ys = refl
concat-append (x ∷ xs) ys = simp (concat-append xs ys, append_assoc)

unfoldable pub is_in : ℕ → Text → Bool
is_in c [] = false
is_in c (d ∷ t) = d == c || is_in c t

unfoldable pub is_separator : List Text → ℕ → Bool
unfolding is_in
is_separator [] c = false
is_separator (sep ∷ separators) c = is_in c sep || is_separator separators c

-- The text without the characters that occur in a separator.
unfoldable pub keep : List Text → Text → Text
unfolding is_separator
keep seps [] = []
keep seps (c ∷ t) = if is_separator seps c then keep seps t else c ∷ keep seps t

keep-append :
    (seps : List Text) (xs ys : Text) → keep seps (xs ++ ys) ≡ keep seps xs ++ keep seps ys
unfolding keep
keep-append seps [] ys = refl
keep-append seps (c ∷ xs) ys = ground (arith, keep-append seps xs ys)

-- A separator of which nothing is kept.
abbrev pub Gone : List Text → Text → Type 0
Gone seps sep = keep seps sep ≡ []

is_prefix-drop : (p t : Text) → is_prefix p t ≡ true → t ≡ p ++ drop (length p) t
unfolding is_prefix
is_prefix-drop [] t h = refl
is_prefix-drop (c ∷ p) [] h = cc
is_prefix-drop (c ∷ p) (d ∷ t) h = ground (arith, is_prefix-drop p t)

pred_suc : (n : ℕ) → suc n - 1 ≡ n
pred_suc n = omega arith

module _ (seps : List Text) where
  keep_after :
      (sep t : Text)
      → Gone seps sep
      → is_prefix sep t ≡ true
      → keep seps (drop (length sep) t) ≡ keep seps t
  keep_after sep t g h =
      ground
        (arith, ap (keep seps) (is_prefix-drop sep t h), keep-append seps sep (drop (length sep) t))

  keep-nil : keep seps [] ≡ []
  unfolding keep
  keep-nil = refl

  drop_pred :
      (sep : Text) (c : ℕ) (t : Text)
      → NonEmpty sep
      → drop (length sep - 1) t ≡ drop (length sep) (c ∷ t)
  drop_pred [] c t n = elim n [ ]
  drop_pred (s ∷ sep) c t n = rw (pred_suc (length sep))

  keep-split_from :
      (sep : Text) (skip : ℕ) (current text : Text)
      → NonEmpty sep
      → Gone seps sep
      → keep seps (concat (split_from sep skip current text))
        ≡ keep seps current ++ keep seps (drop skip text)
  unfolding split_from
  keep-split_from sep zero current [] n g = keep-append seps current []
  keep-split_from sep (suc skip) current [] n g = keep-append seps current []
  keep-split_from sep (suc skip) current (c ∷ t) n g = keep-split_from sep skip current t n g
  keep-split_from sep zero current (c ∷ t) n g = elim (Bool-cases (is_prefix sep (c ∷ t))) [
    | inl h ↦
        rw (h, split_from)
          (cc (
            keep-append seps current (concat (split_from sep (length sep - 1) [] t)),
            keep-split_from sep (length sep - 1) [] t n g,
            keep-nil,
            ap (keep seps) (drop_pred sep c t n),
            keep_after sep (c ∷ t) g h,
          ))
    | inr h ↦
        rw (h, split_from)
          (cc (
            keep-split_from sep 0 (current ++ c ∷ []) t n g,
            keep-append seps current (c ∷ []),
            keep-append seps (c ∷ []) t,
            append_assoc (keep seps current) (keep seps (c ∷ [])) (keep seps t),
          ))
  ]

  keep-emit :
      (current : Text) (rest : List Text)
      → keep seps (concat (emit current rest)) ≡ keep seps current ++ keep seps (concat rest)
  unfolding emit keep
  keep-emit [] rest = refl
  keep-emit (c ∷ current) rest = keep-append seps (c ∷ current) (concat rest)

  keep-candidate :
      (sep current part : Text)
      → Gone seps sep
      → keep seps (candidate sep current part) ≡ keep seps current ++ keep seps part
  unfolding candidate
  keep-candidate sep [] part g = rw keep-nil
  keep-candidate sep (c ∷ current) part g = cc (
    keep-append seps ((c ∷ current) ++ sep) part,
    keep-append seps (c ∷ current) sep,
    g,
    append-nil (keep seps (c ∷ current)),
  )

  keep-group :
      (sep : Text) (size : ℕ) (current : Text) (parts : List Text)
      → Gone seps sep
      → keep seps (concat (group sep size current parts))
        ≡ keep seps current ++ keep seps (concat parts)
  unfolding group
  keep-group sep size current [] g = keep-emit current []
  keep-group sep size current (p ∷ ps) g =
      elim (Bool-cases (leb (length (candidate sep current p)) size)) [
        | inl h ↦
            rw (h, group)
              (cc (
                keep-group sep size (candidate sep current p) ps g,
                keep-candidate sep current p g,
                keep-append seps p (concat ps),
                append_assoc (keep seps current) (keep seps p) (keep seps (concat ps)),
              ))
        | inr h ↦
            rw (h, group)
              (cc (
                keep-emit current (group sep size p ps),
                keep-group sep size p ps g,
                keep-append seps p (concat ps),
              ))
      ]

  -- What is kept of the chunks is what is kept of the text.
  abbrev pub Same : Text → List Text → Type 0
  Same text chunks = keep seps (concat chunks) ≡ keep seps text

  cuts-concat :
      (fuel size : ℕ) (text : Text) → length text ≤ fuel → concat (cuts fuel (suc size) text) ≡ text
  unfolding cuts
  cuts-concat zero size [] h = refl
  cuts-concat zero size (c ∷ text) h = absurd (omega arith)
  cuts-concat (suc fuel) size [] h = refl
  cuts-concat (suc fuel) size (c ∷ text) h =
      rw (cuts-concat fuel size (drop size text) (omega (arith, length-drop size text)))
        (ap (◌∷◌ c) (take-append-drop size text))

  pub one-Same : (text : Text) → Same text (text ∷ [])
  one-Same text = rw append-nil

  hard_cuts-Same : (size : ℕ) (text : Text) → 0 < size → Returns (Same text) (hard_cuts size text)
  unfolding hard_cuts
  hard_cuts-Same zero text h = elim h [ ]
  hard_cuts-Same (suc size) text h =
      ap (keep seps) (cuts-concat (length text) size text (omega arith))

  refine-Same :
      (again : Text → Result (List Text)) (size : ℕ) (raw : List Text)
      → ((rc : Text) → Returns (Same rc) (again rc))
      → Returns (λ chunks. Same (concat raw) chunks) (refine again size raw)
  unfolding refine
  refine-Same again size [] h = refl
  refine-Same again size (rc ∷ raw) h =
      Returns-bind (Same rc) (Same (rc ++ concat raw))
        (if ltb size (length rc) then again rc else ok (rc ∷ [])) _ sub
        λ s hs.
          Returns-bind (Same (concat raw)) (Same (rc ++ concat raw)) (refine again size raw) _
            (refine-Same again size raw h) λ r hr. join s r hs hr
    where
      sub : Returns (Same rc) (if ltb size (length rc) then again rc else ok (rc ∷ []))
      sub = elim (Bool-cases (ltb size (length rc))) [
        | inl t ↦ rw t (h rc)
        | inr f ↦ rw f (one-Same rc)
      ]

      join : (s r : List Text) → Same rc s → Same (concat raw) r → Same (rc ++ concat raw) (s ++ r)
      join s r hs hr = cc (
        ap (keep seps) (concat-append s r),
        keep-append seps (concat s) (concat r),
        keep-append seps rc (concat raw),
        hs,
        hr,
      )

  keep_level :
      (sep : Text) (size : ℕ) (text : Text)
      → NonEmpty sep
      → Gone seps sep
      → keep seps (concat (group sep size [] (split_from sep 0 [] text))) ≡ keep seps text
  keep_level sep size text n g =
      keep-group sep size [] (split_from sep 0 [] text) g
      ∙ cc (keep-nil, keep-split_from sep 0 [] text n g)

  level-Same :
      (again : Text → Result (List Text)) (size : ℕ) (b : Bool) (raw : List Text) (text : Text)
      → ((rc : Text) → Returns (Same rc) (again rc))
      → keep seps (concat raw) ≡ keep seps text
      → Returns (Same text) (if b then again text else refine again size raw)
  level-Same again size true raw text h e = h text
  level-Same again size false raw text h e =
      Returns-map (Same (concat raw)) (Same text) (refine again size raw)
        (refine-Same again size raw h) (λ chunks s. s ∙ e)

  pub chunk_with_separators-Same :
      (size : ℕ) (separators : List Text) (text : Text)
      → 0 < size
      → All NonEmpty separators
      → All (Gone seps) separators
      → Returns (Same text) (chunk_with_separators size separators text)
  unfolding chunk_with_separators
  chunk_with_separators-Same size [] text p n g = elim (Bool-cases (leb (length text) size)) [
    | inl t ↦ rw t (one-Same text)
    | inr f ↦ rw f (hard_cuts-Same size text p)
  ]
  chunk_with_separators-Same size (sep ∷ separators) text p n g =
      elim (Bool-cases (leb (length text) size)) [
        | inl t ↦ rw t (one-Same text)
        | inr f ↦
            rw (f, split_ok sep text n.0)
              (level-Same (chunk_with_separators size separators) size _ _ text
                (λ rc. chunk_with_separators-Same size separators rc p n.1 g.1)
                (keep_level sep size text n.0 g.0))
      ]
