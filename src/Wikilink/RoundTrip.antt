-- ===== src/Wikilink/RoundTrip.antt =====
-- Printing the parts of a wikilink, for `parse_wikilink_parts` of src/vault_search/utils/links.py.
use mathlib.Core.List.{append-nil}
use vault_search_mcp.Prelude.{
  ℕ, Bool, true, false, Option, none, some, [], ◌∷◌, ◌++◌, ◌≡◌, if◌then◌else◌, refl, arith,
  Bool-cases, inl, inr, nat_eq, ◌==◌, ◌||◌,
}
use vault_search_mcp.Prelude.Text.{Text, strip, is_blank}
use vault_search_mcp.Wikilink.{
  WikilinkParts, bar, caret, hash, cons_before, split_once, or_none, take_part,
  parse_wikilink_parts,
}

-- A part with its separator in front of it.
unfoldable pub marked : ℕ → Option Text → Text
marked separator none = []
marked separator (some part) = separator ∷ part

-- The link in the order of the parts.
unfoldable pub print_wikilink : WikilinkParts → Text
unfolding marked
print_wikilink p =
    ((p.target ++ marked hash p.heading) ++ marked caret p.block_ref) ++ marked bar p.alias

unfoldable pub holds : ℕ → Text → Bool
holds separator [] = false
holds separator (c ∷ t) = if c == separator then true else holds separator t

-- A text that is not blank and has no space at its ends.
abbrev pub IsTrim : Text → Type 0
IsTrim t = (strip t ≡ t) × (is_blank t ≡ false)

abbrev pub IsPart : (Text → Type 0) → Option Text → Type 0
IsPart free none = Unit {0}
IsPart free (some part) = IsTrim part × free part

-- The separators that end a part are not in it; later ones may be, like a # in a heading.
pub record IsWikilink (p : WikilinkParts) : Type 0 where
  pub trim : IsTrim p.target
  pub target_bar : holds bar p.target ≡ false
  pub target_caret : holds caret p.target ≡ false
  pub target_hash : holds hash p.target ≡ false
  pub heading : IsPart (λ t. (holds bar t ≡ false) × (holds caret t ≡ false)) p.heading
  pub block_ref : IsPart (λ t. holds bar t ≡ false) p.block_ref
  pub alias : IsPart (λ t. Unit {0}) p.alias

holds-append :
    (separator : ℕ) (s t : Text)
    → holds separator (s ++ t) ≡ (holds separator s || holds separator t)
unfolding holds
holds-append separator [] t = refl
holds-append separator (c ∷ s) t = ground (arith, holds-append separator s t)

split_once-absent :
    (separator : ℕ) (t : Text) → holds separator t ≡ false → split_once separator t ≡ none
unfolding split_once holds cons_before
split_once-absent separator [] h = refl
split_once-absent separator (c ∷ t) h = ground (arith, split_once-absent separator t)

split_once-found :
    (separator : ℕ) (s t : Text)
    → holds separator s ≡ false
    → split_once separator (s ++ (separator ∷ t)) ≡ some (s, t)
unfolding split_once holds cons_before
split_once-found separator [] t h = rw ((nat_eq.beq_iff separator separator).1 refl) refl
split_once-found separator (c ∷ s) t h = elim (Bool-cases (c == separator)) [
  | inl same ↦ let f : true ≡ false = ground arith in cc
  | inr other ↦ rw (other, split_once-found separator s t (ground arith)) refl
]

or_none-IsTrim : (t : Text) → IsTrim t → or_none (strip t) ≡ some t
unfolding or_none is_blank
or_none-IsTrim t h = rw h.0 (found t h.1)
  where
    found : (t : Text) → is_blank t ≡ false → or_none t ≡ some t
    found [] b = cc
    found (c ∷ t) b = refl

-- The last part comes off.
take_part-marked :
    (separator : ℕ) (s : Text) (free : Text → Type 0) (part : Option Text)
    → holds separator s ≡ false
    → IsPart free part
    → take_part (s ++ marked separator part) (split_once separator (s ++ marked separator part))
      ≡ (s, part)
unfolding take_part marked
take_part-marked separator s free none h k = rw (append-nil s, split_once-absent separator s h) refl
take_part-marked separator s free (some part) h k =
    rw (split_once-found separator s part h, or_none-IsTrim part k.0) refl

holds-marked :
    (separator other : ℕ) (free : Text → Type 0) (part : Option Text)
    → (other == separator) ≡ false
    → ((t : Text) → free t → holds separator t ≡ false)
    → IsPart free part
    → holds separator (marked other part) ≡ false
unfolding holds marked
holds-marked separator other free none e f k = refl
holds-marked separator other free (some part) e f k = rw e (f part k.1)

-- Parsing a wikilink that was put together from its parts gives these parts, if each part is neither
-- blank nor has spaces at its ends, the target holds no | ^ #, the heading no | ^ and the block
-- reference no |.
pub parse_wikilink_parts-print_wikilink :
    (p : WikilinkParts) → IsWikilink p → parse_wikilink_parts (print_wikilink p) ≡ p
unfolding parse_wikilink_parts print_wikilink
parse_wikilink_parts-print_wikilink p w =
    let t1 = p.target ++ marked hash p.heading in
    let t2 = t1 ++ marked caret p.block_ref in
    let no_hash =
      take_part-marked hash p.target (λ t. (holds bar t ≡ false) × (holds caret t ≡ false))
        p.heading w.target_hash w.heading in
    let no_caret =
      take_part-marked caret t1 (λ t. holds bar t ≡ false) p.block_ref
        (rw (holds-append, w.target_caret)
          (holds-marked caret hash _ p.heading refl (λ t f. f.1) w.heading))
        w.block_ref in
    let no_bar =
      take_part-marked bar t2 (λ t. Unit {0}) p.alias
        (rw (holds-append, holds-append, w.target_bar)
          (rw (holds-marked bar hash _ p.heading refl (λ t f. f.0) w.heading)
            (holds-marked bar caret _ p.block_ref refl (λ t f. f) w.block_ref)))
        w.alias in
    rw (no_bar, no_caret, no_hash, w.trim.0, w.trim.1) refl
