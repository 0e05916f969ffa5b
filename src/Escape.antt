-- ===== src/Escape.antt =====
-- The escapes of src/vault_search/utils/security.py. A character is its code point.
use vault_search_mcp.Prelude.{ℕ, Bool, List, [], ◌∷◌, ◌++◌, if◌then◌else◌, nat_eq, ◌==◌}
use vault_search_mcp.Prelude.Text.{Text}
pub mod Literal

-- The characters ' \ % and _
abbrev pub quote : ℕ
quote = 39

abbrev pub backslash : ℕ
backslash = 92

abbrev pub percent : ℕ
percent = 37

abbrev pub underscore : ℕ
underscore = 95

-- `value.replace(old, new)` for one character.
unfoldable pub replace : ℕ → Text → Text → Text
replace old new [] = []
replace old new (c ∷ value) =
    let rest = replace old new value in if c == old then new ++ rest else c ∷ rest

unfoldable pub escape_sql_string : Text → Text
unfolding replace
escape_sql_string [] = []
escape_sql_string (c ∷ value) = replace quote (quote ∷ quote ∷ []) (c ∷ value)

unfoldable pub escape_like_pattern : Text → Text
unfolding replace
escape_like_pattern [] = []
escape_like_pattern (c ∷ value) = replace quote (quote ∷ quote ∷ []) (
    replace underscore (backslash ∷ underscore ∷ []) (
      replace percent (backslash ∷ percent ∷ [])
        (replace backslash (backslash ∷ backslash ∷ []) (c ∷ value))))
