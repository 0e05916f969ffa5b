-- ===== src/Chunker/Overlap.antt =====
-- An overlap is a copy of the end of the chunk before; with it, the content of `chunk_text`.
use mathlib.Core.List.{append-nil, append_assoc}
use vault_search_mcp.Prelude.{
  ℕ, All, Bool, Bool-cases, List, Option, [], arith, drop, false, if◌then◌else◌, inl, inr, leb,
  length, length-drop, ltb, none, refl, some, take, take-append-drop, true, ◌&&◌, ◌++◌, ◌+◌, ◌-◌,
  ◌<◌, ◌∷◌, ◌≡◌, ◌≤◌,
}
use vault_search_mcp.Prelude.Text.{Text}
use vault_search_mcp.Prelude.Result.{Returns-ok, ok}
use vault_search_mcp.Chunker.{
  add_overlaps, chunk_text, chunk_with_separators, find_space, get_overlap_prefix, last, overlapped,
  skip_word, trim_prefix,
}
use vault_search_mcp.Chunker.Bounds.{NonEmpty, length-last-le}
use vault_search_mcp.Chunker.Content.{
  keep, Gone, Same, chunk_with_separators-Same, concat, is_in, is_separator, one-Same,
}

-- A text is the end of another.
abbrev pub IsEnd : Text → Text → Type 0
IsEnd p t = (q : Text) × (q ++ p ≡ t)

-- Each chunk is a base chunk behind at most `overlap` characters of the end of the one before.
abbrev pub Extended : ℕ → Text → List Text → List Text → Type 0
Extended overlap previous [] [] = Unit
Extended overlap previous (b ∷ base) (c ∷ chunks) =
    ((p : Text) × (c ≡ p ++ b) × (length p ≤ overlap) × IsEnd p previous)
    × Extended overlap b base chunks
Extended overlap previous _ _ = ⊥

abbrev pub Extends : ℕ → List Text → List Text → Type 0
Extends overlap [] [] = Unit
Extends overlap (b ∷ base) (c ∷ chunks) = (c ≡ b) × Extended overlap b base chunks
Extends overlap _ _ = ⊥

IsEnd-drop : (n : ℕ) (t : Text) → IsEnd (drop n t) t
IsEnd-drop n t = (take n t, take-append-drop n t)

IsEnd-trans : (p q t : Text) → IsEnd p q → IsEnd q t → IsEnd p t
IsEnd-trans p q t (a, e) (b, f) = (b ++ a, rw (append_assoc, e) f)

IsEnd-skip_word : (t : Text) (i : Option ℕ) → IsEnd (skip_word t i) t
unfolding skip_word
IsEnd-skip_word t none = ([], refl)
IsEnd-skip_word t (some i) = elim (Bool-cases (ltb 0 i && ltb i (length t - 1))) [
  | inl h ↦ rw h (IsEnd-drop (i + 1) t)
  | inr h ↦ rw h ([], refl)
]

length-skip_word-le : (t : Text) (i : Option ℕ) → length (skip_word t i) ≤ length t
unfolding skip_word
length-skip_word-le t none = omega arith
length-skip_word-le t (some i) = ground (arith, length-drop (i + 1) t)

get_overlap_prefix-IsEnd : (t : Text) (n : ℕ) → IsEnd (get_overlap_prefix t n) t
unfolding get_overlap_prefix last
get_overlap_prefix-IsEnd t n = elim (Bool-cases (leb (length t) n)) [
  | inl h ↦ rw h ([], refl)
  | inr h ↦ rw h (
      IsEnd-trans _ (drop (length t - n) t) t
        (IsEnd-skip_word (drop (length t - n) t) (find_space (drop (length t - n) t)))
        (IsEnd-drop (length t - n) t))
]

length-get_overlap_prefix-le : (t : Text) (n : ℕ) → length (get_overlap_prefix t n) ≤ n
unfolding get_overlap_prefix
length-get_overlap_prefix-le t n =
    ground (arith, length-skip_word-le (last n t) (find_space (last n t)), length-last-le n t)

trim_prefix-IsEnd : (n : ℕ) (t : Text) → IsEnd (trim_prefix n t) t
unfolding trim_prefix last
trim_prefix-IsEnd n t = elim (Bool-cases (ltb n (length t))) [
  | inl h ↦ elim (Bool-cases (ltb 0 n)) [
    | inl k ↦ rw (h, k) (IsEnd-drop (length t - n) t)
    | inr k ↦ rw (h, k) (t, append-nil t)
  ]
  | inr h ↦ rw h ([], refl)
]

length-trim_prefix-le_self : (n : ℕ) (t : Text) → length (trim_prefix n t) ≤ length t
unfolding trim_prefix last
length-trim_prefix-le_self n t = ground (arith, length-drop (length t - n) t)

add_overlaps-Extended :
    (size overlap : ℕ) (previous : Text) (base : List Text)
    → Extended overlap previous base (add_overlaps size overlap previous base)
unfolding add_overlaps
add_overlaps-Extended size overlap previous [] = tt
add_overlaps-Extended size overlap previous (b ∷ base) =
    let whole = get_overlap_prefix previous overlap in
    let p = trim_prefix (size - length b) whole in
    (
      (
        p,
        refl,
        omega (
          arith,
          length-trim_prefix-le_self (size - length b) whole,
          length-get_overlap_prefix-le previous overlap,
        ),
        IsEnd-trans p whole previous (trim_prefix-IsEnd (size - length b) whole)
            (get_overlap_prefix-IsEnd previous overlap),
      ),
      add_overlaps-Extended size overlap b base,
    )

Extended-refl :
    (overlap : ℕ) (previous : Text) (base : List Text) → Extended overlap previous base base
Extended-refl overlap previous [] = tt
Extended-refl overlap previous (b ∷ base) =
    (([], refl, omega arith, (previous, append-nil previous)), Extended-refl overlap b base)

choose-Extends :
    (size overlap : ℕ) (b : Bool) (base : List Text)
    → Extends overlap base (if b then overlapped size overlap base else base)
unfolding overlapped
choose-Extends size overlap true [] = tt
choose-Extends size overlap true (b ∷ base) = (refl, add_overlaps-Extended size overlap b base)
choose-Extends size overlap false [] = tt
choose-Extends size overlap false (b ∷ base) = (refl, Extended-refl overlap b base)

keep_covered :
    (seps : List Text) (t : Text)
    → ((c : ℕ) → is_in c t ≡ true → is_separator seps c ≡ true)
    → keep seps t ≡ []
unfolding keep is_in
keep_covered seps [] h = refl
keep_covered seps (d ∷ t) h = ground (arith, h d, keep_covered seps t (λ c k. h c (ground arith)))

Gone-part :
    (seps part : List Text)
    → ((c : ℕ) → is_separator part c ≡ true → is_separator seps c ≡ true)
    → All (Gone seps) part
unfolding is_separator
Gone-part seps [] h = tt
Gone-part seps (sep ∷ part) h = (
  keep_covered seps sep (λ c k. h c (ground arith)),
  Gone-part seps part (λ c k. h c (ground arith)),
)

-- Chunking loses only separator characters: the chunks are base chunks, each behind at most
-- `overlap` characters copied from the end of the base chunk before, and what is kept of the base
-- chunks, once the characters that occur in a separator are left out, is what is kept of the text.
pub chunk_text-content :
    (separators : List Text) (text : Text) (size overlap : ℕ)
    → 0 < size
    → All NonEmpty separators
    → (base chunks : List Text) × (chunk_text separators text size overlap ≡ ok chunks)
      × Extends overlap base chunks
      × (keep separators (concat base) ≡ keep separators text)
unfolding chunk_text
chunk_text-content separators text size overlap p n = elim (Bool-cases (leb (length text) size)) [
  | inl t ↦ (text ∷ [], text ∷ [], rw t, (refl, tt), one-Same separators text)
  | inr f ↦
      let (base, e, same) =
        Returns-ok (Same separators text) (chunk_with_separators size separators text) (
          chunk_with_separators-Same separators size separators text p n
            (Gone-part separators separators (λ c k. k))) in
      (
        base,
        (if ltb 0 overlap && ltb 1 (length base) then overlapped size overlap base else base),
        rw (f, e),
        choose-Extends size overlap _ base,
        same,
      )
]
