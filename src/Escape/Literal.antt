-- ===== src/Escape/Literal.antt =====
-- What SQL reads where an escaped text stands between quotes, and what it matches as a pattern.
use vault_search_mcp.Prelude.{
  ℕ, Bool, true, false, Option, none, some, [], ◌∷◌, ◌++◌, ◌≡◌, ◌∙◌, if◌then◌else◌, refl,
  Bool-cases, inl, inr, nat_eq, ◌==◌, ◌&&◌,
}
use vault_search_mcp.Prelude.Text.{Text, text_beq}
use vault_search_mcp.Escape.{
  quote, backslash, percent, underscore, replace, escape_sql_string, escape_like_pattern,
}

unfoldable pub cons_read : ℕ → Option (Text × Text) → Option (Text × Text)
cons_read c none = none
cons_read c (some (value, rest)) = some (c ∷ value, rest)

-- A literal behind its opening quote: the value, and what follows the closing quote. Two quotes stand
-- for one; a literal that is not closed is none.
unfoldable pub read_literal : Text → Option (Text × Text)
unfolding cons_read
read_literal [] = none
read_literal (c ∷ []) = if c == quote then some ([], []) else none
read_literal (c ∷ d ∷ t) =
    let skipped = read_literal t in
    let next = read_literal (d ∷ t) in
    if c == quote
    then if d == quote then cons_read quote skipped else some ([], d ∷ t)
    else cons_read c next

-- The text does not go on with a quote.
abbrev pub IsClosed : Text → Type 0
IsClosed [] = Unit {0}
IsClosed (c ∷ t) = (c == quote) ≡ false

-- Some end of the text has the property.
unfoldable pub any_suffix : (Text → Bool) → Text → Bool
any_suffix f [] = f []
any_suffix f (c ∷ t) = if f (c ∷ t) then true else any_suffix f t

unfoldable pub starts : ℕ → (Text → Bool) → Text → Bool
starts c f [] = false
starts c f (d ∷ t) = c == d && f t

unfoldable pub not_empty : (Text → Bool) → Text → Bool
not_empty f [] = false
not_empty f (d ∷ t) = f t

unfoldable pub is_empty : Text → Bool
is_empty [] = true
is_empty (c ∷ t) = false

-- LIKE with the backslash as its escape: a percent sign stands for any text and an underscore for any
-- character.
unfoldable pub like : Text → Text → Bool
unfolding any_suffix starts not_empty is_empty
like [] text = is_empty text
like (c ∷ []) text =
    if c == percent
    then true
    else if c == underscore
    then not_empty is_empty text
    else starts c is_empty text
like (c ∷ d ∷ p) text =
    let after = like p in
    let next = like (d ∷ p) in
    if c == backslash
    then starts d after text
    else if c == percent
    then any_suffix next text
    else if c == underscore
    then not_empty next text
    else starts c next text

read_literal-other :
    (c : ℕ) (t : Text) → (c == quote) ≡ false → read_literal (c ∷ t) ≡ cons_read c (read_literal t)
unfolding read_literal cons_read
read_literal-other c [] h = rw h refl
read_literal-other c (d ∷ t) h = rw h refl

read_literal-quote : (rest : Text) → IsClosed rest → read_literal (quote ∷ rest) ≡ some ([], rest)
unfolding read_literal
read_literal-quote [] h = refl
read_literal-quote (c ∷ rest) h = rw h refl

read_literal-doubled :
    (t : Text) → read_literal (quote ∷ quote ∷ t) ≡ cons_read quote (read_literal t)
unfolding read_literal
read_literal-doubled t = refl

read_literal-replace :
    (value rest : Text)
    → IsClosed rest
    → read_literal (replace quote (quote ∷ quote ∷ []) value ++ (quote ∷ rest)) ≡ some (value, rest)
unfolding replace cons_read
read_literal-replace [] rest h = read_literal-quote rest h
read_literal-replace (c ∷ value) rest h = elim (Bool-cases (c == quote)) [
  | inl same ↦
      let e : c ≡ quote = (nat_eq.beq_iff c quote).0 same in
      rw (e, read_literal-doubled, read_literal-replace value rest h) refl
  | inr other ↦
      rw
        (
          other,
          read_literal-other c (replace quote (quote ∷ quote ∷ []) value ++ (quote ∷ rest)) other,
          read_literal-replace value rest h,
        )
        refl
]

-- The pattern that is read from the escaped one.
abbrev like_escaped : Text → Text
like_escaped value = replace underscore (backslash ∷ underscore ∷ []) (
    replace percent (backslash ∷ percent ∷ [])
      (replace backslash (backslash ∷ backslash ∷ []) value))

-- No other character is special in a pattern.
abbrev IsPlain : ℕ → Type 0
IsPlain c = ((c == backslash) ≡ false) × ((c == percent) ≡ false) × ((c == underscore) ≡ false)

like-plain : (c : ℕ) (p text : Text) → IsPlain c → like (c ∷ p) text ≡ starts c (like p) text
unfolding like starts
like-plain c [] [] h = rw (h.1, h.2) refl
like-plain c [] (d ∷ t) h = rw (h.1, h.2) refl
like-plain c (d ∷ p) text h = rw (h.0, h.1, h.2) refl

like-backslash : (c : ℕ) (p text : Text) → like (backslash ∷ c ∷ p) text ≡ starts c (like p) text
unfolding like
like-backslash c p text = refl

starts-text_beq :
    (c : ℕ) (f : Text → Bool) (value text : Text)
    → ((t : Text) → f t ≡ text_beq value t)
    → starts c f text ≡ text_beq (c ∷ value) text
unfolding starts text_beq
starts-text_beq c f value [] h = refl
starts-text_beq c f value (d ∷ t) h = rw (h t) refl

like-like_escaped : (value text : Text) → like (like_escaped value) text ≡ text_beq value text
unfolding replace like text_beq is_empty
like-like_escaped [] [] = refl
like-like_escaped [] (d ∷ t) = refl
like-like_escaped (c ∷ value) text =
    let same = λ (k : ℕ).
      starts-text_beq k (like (like_escaped value)) value text (like-like_escaped value) in
    let special = λ (k : ℕ). like-backslash k (like_escaped value) text ∙ same k in
    elim (Bool-cases (c == backslash)) [
      | inl b ↦ rw ((nat_eq.beq_iff c backslash).0 b) (special backslash)
      | inr not_b ↦ elim (Bool-cases (c == percent)) [
        | inl p ↦ rw ((nat_eq.beq_iff c percent).0 p) (special percent)
        | inr not_p ↦ elim (Bool-cases (c == underscore)) [
          | inl u ↦ rw ((nat_eq.beq_iff c underscore).0 u) (special underscore)
          | inr not_u ↦
              rw (not_b, not_p, not_u)
                (like-plain c (like_escaped value) text (not_b, not_p, not_u) ∙ same c)
        ]
      ]
    ]

-- Between quotes and before anything but another quote, SQL reads an escaped text as the text itself,
-- and an escaped pattern as a pattern that LIKE matches with this text alone.
pub escape_lem :
    (value rest : Text)
    → IsClosed rest
    → (read_literal (escape_sql_string value ++ (quote ∷ rest)) ≡ some (value, rest))
      × ((pattern : Text) × (read_literal (escape_like_pattern value ++ (quote ∷ rest))
            ≡ some (pattern, rest))
          × ((text : Text) → like pattern text ≡ text_beq value text))
unfolding escape_sql_string escape_like_pattern replace
escape_lem [] rest h =
    (read_literal-replace [] rest h, ([], read_literal-replace [] rest h, like-like_escaped []))
escape_lem (c ∷ value) rest h = (
  read_literal-replace (c ∷ value) rest h,
  (
    like_escaped (c ∷ value),
    read_literal-replace (like_escaped (c ∷ value)) rest h,
    like-like_escaped (c ∷ value),
  ),
)
