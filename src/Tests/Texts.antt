-- ===== src/Tests/Texts.antt =====
-- The escapes of src/vault_search/utils/security.py and the wikilinks of utils/links.py on short texts.
use vault_search_mcp.Prelude.{some, ◌∷◌, ◌++◌, ◌≡◌, refl}
use vault_search_mcp.Prelude.Text.{Text, text_beq, strip, lstrip, rstrip, is_space, is_blank, codes}
use vault_search_mcp.Escape.{quote, escape_sql_string, escape_like_pattern}
use vault_search_mcp.Escape.Literal.{read_literal, like, escape_lem}
use vault_search_mcp.Wikilink.{WikilinkParts, parse_wikilink_parts}
use vault_search_mcp.Wikilink.RoundTrip.{
  IsWikilink, print_wikilink, parse_wikilink_parts-print_wikilink, holds,
}

abbrev name : Text
name = codes "O'Brien_50%"

abbrev condition : Text
condition = codes " OR 1"

escape_lem_example :
    (read_literal (escape_sql_string name ++ (quote ∷ condition)) ≡ some (name, condition))
    × ((pattern : Text) × (read_literal (escape_like_pattern name ++ (quote ∷ condition))
          ≡ some (pattern, condition))
        × ((text : Text) → like pattern text ≡ text_beq name text))
escape_lem_example = escape_lem name condition refl

-- folder/Note#Head#ing^block|an | alias
abbrev parts : WikilinkParts
parts = record {
  target = codes "folder/Note";
  heading = some (codes "Head#ing");
  block_ref = some (codes "block");
  alias = some (codes "an | alias");
}

abbrev parts-IsWikilink : IsWikilink parts
unfolding holds strip lstrip rstrip is_space is_blank
parts-IsWikilink = record {
  trim = (refl, refl);
  target_bar = refl;
  target_caret = refl;
  target_hash = refl;
  heading = ((refl, refl), (refl, refl));
  block_ref = ((refl, refl), refl);
  alias = ((refl, refl), tt);
}

parse_wikilink_parts-print_wikilink_example : parse_wikilink_parts (print_wikilink parts) ≡ parts
parse_wikilink_parts-print_wikilink_example =
    parse_wikilink_parts-print_wikilink parts parts-IsWikilink
