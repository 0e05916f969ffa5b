-- ===== src/Chunker.antt =====
-- src/vault_search/core/chunker.py: text is cut at a hierarchy of separators into chunks of a
-- bounded size, and each chunk is given the end of the one before it. A text is the list of its
-- code points; `separators` is CHUNK_SEPARATORS of config/chunking.py.
pub mod Bounds
pub mod Content
pub mod Overlap
use mathlib.Core.Option
use vault_search_mcp.Prelude.{
  ℕ, Bool, List, Option, [], drop, false, if◌then◌else◌, leb, length, ltb, map, none, some, suc,
  take, true, zero, ◌&&◌, ◌++◌, ◌+◌, ◌-◌, ◌==◌, ◌∷◌, EqType, nat_eq, string_eq,
}
use vault_search_mcp.Prelude.Text.{Text}
use vault_search_mcp.Prelude.Result.{Result, ok, raise, value_error, ◌>>=◌}

unfoldable pub is_prefix : Text → Text → Bool
is_prefix [] t = true
is_prefix (c ∷ p) [] = false
is_prefix (c ∷ p) (d ∷ t) = c == d && is_prefix p t

-- `str.split(sep)` from a position: `skip` more characters belong to a separator, and `current` is
-- the part that is being read.
unfoldable pub split_from : Text → ℕ → Text → Text → List Text
split_from sep skip current [] = current ∷ []
split_from sep (suc skip) current (c ∷ t) = split_from sep skip current t
split_from sep zero current (c ∷ t) = elim (is_prefix sep (c ∷ t)) [
  | true ↦ current ∷ split_from sep (length sep - 1) [] t
  | false ↦ split_from sep 0 (current ++ c ∷ []) t
]

-- An empty separator is a ValueError.
unfoldable pub split : Text → Text → Result (List Text)
split [] text = raise value_error
split (c ∷ sep) text = ok (split_from (c ∷ sep) 0 [] text)

-- `if current: ...append(current)`
unfoldable pub emit : Text → List Text → List Text
emit [] rest = rest
emit (c ∷ current) rest = (c ∷ current) ∷ rest

unfoldable pub candidate : Text → Text → Text → Text
candidate sep [] part = part
candidate sep (c ∷ current) part = (c ∷ current) ++ sep ++ part

-- The loop that groups parts into raw chunks.
unfoldable pub group : Text → ℕ → Text → List Text → List Text
unfolding emit candidate
group sep size current [] = emit current []
group sep size current (part ∷ parts) =
    let next = candidate sep current part in
    let fits = leb (length next) size in
    let rest = group sep size (if fits then next else part) parts in
    if fits then rest else emit current rest

-- `text[i : i + chunk_size]` for i in steps of `chunk_size`; a step of zero is a ValueError.
unfoldable pub cuts : ℕ → ℕ → Text → List Text
cuts zero size text = []
cuts (suc fuel) size [] = []
cuts (suc fuel) size (c ∷ text) = take size (c ∷ text) ∷ cuts fuel size (drop size (c ∷ text))

unfoldable pub hard_cuts : ℕ → Text → Result (List Text)
unfolding cuts
hard_cuts zero text = raise value_error
hard_cuts (suc size) text = ok (cuts (length text) (suc size) text)

-- The loop that splits a raw chunk again if it is still too long.
unfoldable pub refine : (Text → Result (List Text)) → ℕ → List Text → Result (List Text)
refine again size [] = ok []
refine again size (rc ∷ raw) = do
  sub ← if ltb size (length rc) then again rc else ok (rc ∷ [])
  rest ← refine again size raw
  ok (sub ++ rest)

-- The separators are those from `sep_idx` on.
unfoldable pub chunk_with_separators : ℕ → List Text → Text → Result (List Text)
unfolding split group hard_cuts refine
chunk_with_separators size [] text =
    if leb (length text) size then ok (text ∷ []) else hard_cuts size text
chunk_with_separators size (sep ∷ separators) text =
    let again = chunk_with_separators size separators in
    if leb (length text) size then ok (text ∷ []) else do
      parts ← split sep text
      if leb (length parts) 1 then again text else refine again size (group sep size [] parts)

-- `text[-n:]`, for 0 < n
unfoldable pub last : ℕ → Text → Text
last n text = drop (length text - n) text

-- `text.find(" ")`
unfoldable pub find_space : Text → Option ℕ
find_space [] = none
find_space (c ∷ t) = if c == b' ' then some 0 else Option.map suc (find_space t)

unfoldable pub skip_word : Text → Option ℕ → Text
skip_word text none = text
skip_word text (some i) = if ltb 0 i && ltb i (length text - 1) then drop (i + 1) text else text

unfoldable pub get_overlap_prefix : Text → ℕ → Text
unfolding last find_space skip_word
get_overlap_prefix text overlap =
    if leb (length text) overlap
    then text
    else let end = last overlap text in skip_word end (find_space end)

unfoldable pub trim_prefix : ℕ → Text → Text
unfolding last
trim_prefix max_prefix prefix =
    if ltb max_prefix (length prefix)
    then (if ltb 0 max_prefix then last max_prefix prefix else [])
    else prefix

-- The loop over the chunks after the first; `previous` is the chunk before, without its prefix.
unfoldable pub add_overlaps : ℕ → ℕ → Text → List Text → List Text
unfolding get_overlap_prefix trim_prefix
add_overlaps size overlap previous [] = []
add_overlaps size overlap previous (chunk ∷ chunks) =
    (trim_prefix (size - length chunk) (get_overlap_prefix previous overlap) ++ chunk)
    ∷ add_overlaps size overlap chunk chunks

unfoldable pub overlapped : ℕ → ℕ → List Text → List Text
unfolding add_overlaps
overlapped size overlap [] = []
overlapped size overlap (chunk ∷ chunks) = chunk ∷ add_overlaps size overlap chunk chunks

unfoldable pub chunk_text : List Text → Text → ℕ → ℕ → Result (List Text)
unfolding chunk_with_separators overlapped
chunk_text separators text size overlap = if leb (length text) size then ok (text ∷ []) else do
  chunks ← chunk_with_separators size separators text
  ok (if ltb 0 overlap && ltb 1 (length chunks) then overlapped size overlap chunks else chunks)
