-- ===== src/Chunker/Bounds.antt =====
-- The chunker returns, and every chunk fits.
use vault_search_mcp.Prelude.{
  ℕ, All, All-append, Bool-cases, List, [], arith, drop, if◌then◌else◌, inl, inr, leb, length,
  length-take, ltb, refl, suc, zero, ◌<◌, ◌∷◌, ◌≡◌, ◌≤◌, Bool, false, length-append, length-drop,
  true, ◌-◌,
}
use vault_search_mcp.Prelude.Text.{Text}
use vault_search_mcp.Prelude.Result.{Result, Returns, Returns-bind, ok, Returns-ok}
use vault_search_mcp.Chunker.{
  chunk_with_separators, cuts, hard_cuts, refine, split, split_from, add_overlaps, chunk_text,
  get_overlap_prefix, last, overlapped, trim_prefix,
}

abbrev pub Fits : ℕ → Text → Type 0
Fits size text = length text ≤ size

cuts-Fits : (fuel size : ℕ) (text : Text) → All (Fits size) (cuts fuel size text)
unfolding cuts
cuts-Fits zero size text = tt
cuts-Fits (suc fuel) size [] = tt
cuts-Fits (suc fuel) size (c ∷ text) =
    (omega (arith, length-take size (c ∷ text)), cuts-Fits fuel size (drop size (c ∷ text)))

hard_cuts-Fits :
    (size : ℕ) (text : Text) → 0 < size → Returns (All (Fits size)) (hard_cuts size text)
unfolding hard_cuts
hard_cuts-Fits zero text h = elim h [ ]
hard_cuts-Fits (suc size) text h = cuts-Fits (length text) (suc size) text

-- Chunks of which each fits, from raw chunks and a way to split the long ones.
refine-Fits :
    (again : Text → Result (List Text)) (size : ℕ) (raw : List Text)
    → ((rc : Text) → Returns (All (Fits size)) (again rc))
    → Returns (All (Fits size)) (refine again size raw)
unfolding refine
refine-Fits again size [] h = tt
refine-Fits again size (rc ∷ raw) h =
    Returns-bind (All (Fits size)) (All (Fits size))
      (if ltb size (length rc) then again rc else ok (rc ∷ [])) _ sub
      λ s hs.
        Returns-bind (All (Fits size)) (All (Fits size)) (refine again size raw) _
          (refine-Fits again size raw h) λ r hr. All-append (Fits size) s r hs hr
  where
    sub : Returns (All (Fits size)) (if ltb size (length rc) then again rc else ok (rc ∷ []))
    sub = elim (Bool-cases (ltb size (length rc))) [
      | inl t ↦ rw t (h rc)
      | inr f ↦ rw f (ground arith, tt)
    ]

-- A separator that `split` accepts.
abbrev pub NonEmpty : Text → Type 0
NonEmpty sep = 0 < length sep

pub split_ok : (sep text : Text) → NonEmpty sep → split sep text ≡ ok (split_from sep 0 [] text)
unfolding split
split_ok [] text h = elim h [ ]
split_ok (c ∷ sep) text h = refl

level-Fits :
    (again : Text → Result (List Text)) (size : ℕ) (b : Bool) (raw : List Text) (text : Text)
    → ((rc : Text) → Returns (All (Fits size)) (again rc))
    → Returns (All (Fits size)) (if b then again text else refine again size raw)
level-Fits again size true raw text h = h text
level-Fits again size false raw text h = refine-Fits again size raw h

pub chunk_with_separators-Fits :
    (size : ℕ) (separators : List Text) (text : Text)
    → 0 < size
    → All NonEmpty separators
    → Returns (All (Fits size)) (chunk_with_separators size separators text)
unfolding chunk_with_separators
chunk_with_separators-Fits size [] text p h = elim (Bool-cases (leb (length text) size)) [
  | inl t ↦ rw t (ground arith, tt)
  | inr f ↦ rw f (hard_cuts-Fits size text p)
]
chunk_with_separators-Fits size (sep ∷ separators) text p h =
    elim (Bool-cases (leb (length text) size)) [
      | inl t ↦ rw t (ground arith, tt)
      | inr f ↦
          rw (f, split_ok sep text h.0)
            (level-Fits (chunk_with_separators size separators) size _ _ text
              (λ rc. chunk_with_separators-Fits size separators rc p h.1))
    ]

pub length-last-le : (n : ℕ) (text : Text) → length (last n text) ≤ n
unfolding last
length-last-le n text = omega (arith, length-drop (length text - n) text)

length-trim_prefix-le : (n : ℕ) (prefix : Text) → length (trim_prefix n prefix) ≤ n
unfolding trim_prefix
length-trim_prefix-le n prefix = ground (arith, length-last-le n prefix)

add_overlaps-Fits :
    (size overlap : ℕ) (previous : Text) (chunks : List Text)
    → All (Fits size) chunks
    → All (Fits size) (add_overlaps size overlap previous chunks)
unfolding add_overlaps
add_overlaps-Fits size overlap previous [] h = tt
add_overlaps-Fits size overlap previous (chunk ∷ chunks) h = (
  omega (
    arith,
    h.0,
    length-append (trim_prefix (size - length chunk) (get_overlap_prefix previous overlap)) chunk,
    length-trim_prefix-le (size - length chunk) (get_overlap_prefix previous overlap),
  ),
  add_overlaps-Fits size overlap chunk chunks h.1,
)

overlapped-Fits :
    (size overlap : ℕ) (chunks : List Text)
    → All (Fits size) chunks
    → All (Fits size) (overlapped size overlap chunks)
unfolding overlapped
overlapped-Fits size overlap [] h = tt
overlapped-Fits size overlap (chunk ∷ chunks) h =
    (h.0, add_overlaps-Fits size overlap chunk chunks h.1)

choose-Fits :
    (size overlap : ℕ) (b : Bool) (chunks : List Text)
    → All (Fits size) chunks
    → All (Fits size) (if b then overlapped size overlap chunks else chunks)
choose-Fits size overlap true chunks h = overlapped-Fits size overlap chunks h
choose-Fits size overlap false chunks h = h

-- With a positive size and no empty separator, chunking returns, and every chunk, its overlap
-- included, has at most `size` characters.
pub chunk_text-Fits :
    (separators : List Text) (text : Text) (size overlap : ℕ)
    → 0 < size
    → All NonEmpty separators
    → (chunks : List Text) × (chunk_text separators text size overlap ≡ ok chunks)
      × All (Fits size) chunks
unfolding chunk_text
chunk_text-Fits separators text size overlap p h =
    Returns-ok (All (Fits size)) (chunk_text separators text size overlap) fits
  where
    fits : Returns (All (Fits size)) (chunk_text separators text size overlap)
    fits = elim (Bool-cases (leb (length text) size)) [
      | inl t ↦ rw (t, chunk_text) (ground arith, tt)
      | inr f ↦
          rw (f, chunk_text)
            (Returns-bind (All (Fits size)) (All (Fits size))
              (chunk_with_separators size separators text) _
              (chunk_with_separators-Fits size separators text p h)
              λ chunks hc. choose-Fits size overlap _ chunks hc)
    ]
