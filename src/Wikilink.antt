-- ===== src/Wikilink.antt =====
-- `parse_wikilink_parts` of src/vault_search/utils/links.py.
use vault_search_mcp.Prelude.{
  ℕ, Bool, Option, none, some, List, [], ◌∷◌, if◌then◌else◌, nat_eq, ◌==◌,
}
use vault_search_mcp.Prelude.Text.{Text, strip, is_blank}
pub mod RoundTrip

pub record WikilinkParts : Type 0 where
  pub target : Text
  pub alias : Option Text
  pub heading : Option Text
  pub block_ref : Option Text

-- The characters | ^ #
abbrev pub bar : ℕ
bar = 124

abbrev pub caret : ℕ
caret = 94

abbrev pub hash : ℕ
hash = 35

unfoldable pub cons_before : ℕ → Option (Text × Text) → Option (Text × Text)
cons_before c none = none
cons_before c (some (before, after)) = some (c ∷ before, after)

-- `working.split(separator, 1)` if the separator is in it.
unfoldable pub split_once : ℕ → Text → Option (Text × Text)
unfolding cons_before
split_once separator [] = none
split_once separator (c ∷ t) =
    let rest = split_once separator t in if c == separator then some ([], t) else cons_before c rest

-- `part.strip() if part.strip() else None`
unfoldable pub or_none : Text → Option Text
or_none [] = none
or_none (c ∷ t) = some (c ∷ t)

unfoldable pub take_part : Text → Option (Text × Text) → Text × Option Text
unfolding or_none
take_part working none = (working, none)
take_part working (some (before, after)) = (before, or_none (strip after))

unfoldable pub parse_wikilink_parts : Text → WikilinkParts
unfolding split_once take_part
parse_wikilink_parts wikilink =
    let (no_alias, alias) = take_part wikilink (split_once bar wikilink) in
    let (no_block, block_ref) = take_part no_alias (split_once caret no_alias) in
    let (no_heading, heading) = take_part no_block (split_once hash no_block) in
    record {
      target = if is_blank (strip no_heading) then wikilink else strip no_heading;
      alias = alias;
      heading = heading;
      block_ref = block_ref;
    }
