-- ===== src/Prelude/Text.antt =====
-- Python's `str` as the list of its code points, with the methods that the program calls.
use Prim.Native.Nat.{ℕ, ◌≤◌}
use mathlib.Core.Path.{◌≡◌, refl}
use mathlib.Core.Logic.{◌↔◌}
use vault_search_mcp.Prelude.Eq.{EqType}
use Prim.Native.Char.{code}
use Prim.Native.String.{String}
use mathlib.Core.Bool.{Bool, true, false, ◌&&◌, ◌||◌}
use mathlib.Core.List.{List, [], ◌∷◌}
use native.Mathlib.Omega.{arith}
use vault_search_mcp.Prelude.Tests.{leb, if◌then◌else◌, nat_beq}
use vault_search_mcp.Prelude.Lists.{length}

abbrev pub Text : Type 0
Text = List ℕ

-- `str.isspace` of one character.
unfoldable pub is_space : ℕ → Bool
is_space c =
    (leb 9 c && leb c 13)
    || (leb 28 c && leb c 32)
    || nat_beq c 133
    || nat_beq c 160
    || nat_beq c 5760
    || (leb 8192 c && leb c 8202)
    || nat_beq c 8232
    || nat_beq c 8233
    || nat_beq c 8239
    || nat_beq c 8287
    || nat_beq c 12288

unfoldable pub is_blank : Text → Bool
is_blank [] = true
is_blank (c ∷ t) = false

-- `text.lstrip()`
unfoldable pub lstrip : Text → Text
lstrip [] = []
lstrip (c ∷ t) = if is_space c then lstrip t else c ∷ t

-- `text.rstrip()`
unfoldable pub rstrip : Text → Text
unfolding is_blank
rstrip [] = []
rstrip (c ∷ t) = let rest = rstrip t in if is_blank rest && is_space c then [] else c ∷ rest

unfoldable pub strip : Text → Text
unfolding lstrip rstrip
strip t = rstrip (lstrip t)

pub length-lstrip-le : (t : Text) → length (lstrip t) ≤ length t
unfolding lstrip
length-lstrip-le [] = omega arith
length-lstrip-le (c ∷ t) = ground (arith, length-lstrip-le t)

pub length-rstrip-le : (t : Text) → length (rstrip t) ≤ length t
unfolding rstrip
length-rstrip-le [] = omega arith
length-rstrip-le (c ∷ t) = ground (arith, length-rstrip-le t)

pub length-strip-le : (t : Text) → length (strip t) ≤ length t
unfolding strip
length-strip-le t = omega (arith, length-rstrip-le (lstrip t), length-lstrip-le t)

rstrip_idem : (t : Text) → rstrip (rstrip t) ≡ rstrip t
unfolding rstrip
rstrip_idem [] = refl
rstrip_idem (c ∷ t) = ground (arith, rstrip_idem t)

-- The first character is no space.
abbrev Front : Text → Type 0
Front [] = Unit {0}
Front (c ∷ t) = is_space c ≡ false

lstrip-Front : (t : Text) → Front (lstrip t)
unfolding lstrip
lstrip-Front [] = tt
lstrip-Front (c ∷ t) = ground (arith, lstrip-Front t)

rstrip-Front : (t : Text) → Front t → Front (rstrip t)
unfolding rstrip
rstrip-Front [] h = tt
rstrip-Front (c ∷ t) h = ground arith

lstrip_of_Front : (t : Text) → Front t → lstrip t ≡ t
unfolding lstrip
lstrip_of_Front [] h = refl
lstrip_of_Front (c ∷ t) h = rw h

-- A stripped text has nothing left to strip.
pub strip_idem : (t : Text) → strip (strip t) ≡ strip t
unfolding strip
strip_idem t =
    rw (lstrip_of_Front (rstrip (lstrip t)) (rstrip-Front (lstrip t) (lstrip-Front t)))
      (rstrip_idem (lstrip t))

-- `path.lower().endswith(".md")`, on the code points: no others than M and D fold to m and d.
abbrev pub codes : String → List ℕ
codes String.[] = []
codes (String.◌∷◌ c s) = code c ∷ codes s

unfoldable pub is_md_end : List ℕ → Bool
is_md_end (c ∷ d ∷ []) = (nat_beq c b'm' || nat_beq c b'M') && (nat_beq d b'd' || nat_beq d b'D')
is_md_end _ = false

unfoldable pub ends_md : List ℕ → Bool
unfolding is_md_end
ends_md [] = false
ends_md (c ∷ t) = (nat_beq c b'.' && is_md_end t) || ends_md t

unfoldable pub text_beq : Text → Text → Bool
text_beq [] [] = true
text_beq [] (d ∷ t) = false
text_beq (c ∷ s) [] = false
text_beq (c ∷ s) (d ∷ t) = nat_beq c d && text_beq s t

pub text_beq_iff : (s t : Text) → (text_beq s t ≡ true) ↔ (s ≡ t)
unfolding text_beq
text_beq_iff [] [] = ground arith
text_beq_iff [] (d ∷ t) = ground arith
text_beq_iff (c ∷ s) [] = ground arith
text_beq_iff (c ∷ s) (d ∷ t) = ground (arith, text_beq_iff s t)

instance abbrev pub text_eq : EqType Text
text_eq = record { beq = text_beq; beq_iff = text_beq_iff }
