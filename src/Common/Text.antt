-- ===== src/Common/Text.antt =====
-- Python's `str` as its list of code points, with the methods of `str` that the program calls.
-- The character classes are those of Python on Latin-1 (code points below 256); a code point above
-- has no case, is no letter and no space here.
pub mod Laws
use Prim.Native.Char.{code}
use Prim.Native.String.{String}
use Prim.Native.Nat.{ℕ, ◌+◌}
use mathlib.Core.Bool.{Bool, true, false, ◌&&◌, ◌||◌}
use mathlib.Core.List.{List, [], ◌∷◌, ◌++◌}
use sqlum_ai.Common.Tests.{leb, ◌==◌, if◌then◌else◌}

abbrev pub Text : Type 0
Text = List ℕ

-- The code points of a literal.
abbrev pub codes : String → Text
codes String.[] = []
codes (String.◌∷◌ c s) = code c ∷ codes s

-- `s == t`
unfoldable pub text_eq : Text → Text → Bool
text_eq [] [] = true
text_eq [] (d ∷ t) = false
text_eq (c ∷ s) [] = false
text_eq (c ∷ s) (d ∷ t) = let rest = text_eq s t in if c == d then rest else false

-- `bool(s)`
abbrev pub nonempty : Text → Bool
nonempty [] = false
nonempty (c ∷ s) = true

-- A character of a cased letter's range, lowered.
unfoldable pub lower_char : ℕ → ℕ
lower_char c =
    if (leb 65 c && leb c 90) || (leb 192 c && leb c 214) || (leb 216 c && leb c 222)
    then c + 32
    else c

-- `s.lower()`
unfoldable pub lower : Text → Text
unfolding lower_char
lower [] = []
lower (c ∷ s) = lower_char c ∷ lower s

-- `c.isspace()`, and `\s` of a pattern
unfoldable pub is_space : ℕ → Bool
is_space c = (leb 9 c && leb c 13) || (leb 28 c && leb c 32) || c == 133 || c == 160

-- `\d`
unfoldable pub is_digit : ℕ → Bool
is_digit c = leb b'0' c && leb c b'9'

-- `c.isalpha()`
unfoldable pub is_alpha : ℕ → Bool
is_alpha c =
    (leb 65 c && leb c 90)
    || (leb 97 c && leb c 122)
    || c == 170
    || c == 181
    || c == 186
    || (leb 192 c && leb c 214)
    || (leb 216 c && leb c 246)
    || (leb 248 c && leb c 255)

-- `\w`: letters, digits, the other numeric characters, and `_`
unfoldable pub is_word : ℕ → Bool
unfolding is_alpha is_digit
is_word c =
    is_alpha c
    || is_digit c
    || c == b'_'
    || c == 178
    || c == 179
    || c == 185
    || (leb 188 c && leb c 190)

-- `s.startswith(p)`
unfoldable pub starts_with : Text → Text → Bool
starts_with s [] = true
starts_with [] (d ∷ p) = false
starts_with (c ∷ s) (d ∷ p) = let rest = starts_with s p in if c == d then rest else false

-- `p in s`
unfoldable pub contains : Text → Text → Bool
unfolding starts_with
contains [] p = starts_with [] p
contains (c ∷ s) p = starts_with (c ∷ s) p || contains s p

-- `s.lstrip(chars)`, the characters given by a test
unfoldable pub lstrip_by : (ℕ → Bool) → Text → Text
lstrip_by p [] = []
lstrip_by p (c ∷ s) = let rest = lstrip_by p s in if p c then rest else c ∷ s

unfoldable pub rstrip_by : (ℕ → Bool) → Text → Text
rstrip_by p [] = []
rstrip_by p (c ∷ s) =
    let rest = rstrip_by p s in if nonempty rest then c ∷ rest else if p c then [] else c ∷ []

unfoldable pub strip_by : (ℕ → Bool) → Text → Text
unfolding lstrip_by rstrip_by
strip_by p s = rstrip_by p (lstrip_by p s)

-- `s.strip()`
unfoldable pub strip : Text → Text
unfolding strip_by is_space
strip = strip_by is_space

-- `s.split(c)` at a one-character separator; never empty
unfoldable pub split_at_char : ℕ → Text → List Text
split_at_char d [] = [] ∷ []
split_at_char d (c ∷ s) =
    let rest = split_at_char d s in
    if c == d then [] ∷ rest else elim rest [ [] ↦ (c ∷ []) ∷ [] | w ∷ ws ↦ (c ∷ w) ∷ ws ]

-- `s.split(c)[0]`
unfoldable pub before_char : ℕ → Text → Text
before_char d [] = []
before_char d (c ∷ s) = let rest = before_char d s in if c == d then [] else c ∷ rest

-- `s.split(c)[-1]`
unfoldable pub last_part : ℕ → Text → Text → Text
last_part d cur [] = cur
last_part d cur (c ∷ s) = last_part d (if c == d then [] else cur ++ c ∷ []) s

-- `sep.join(parts)`
unfoldable pub join : Text → List Text → Text
join sep [] = []
join sep (p ∷ []) = p
join sep (p ∷ (q ∷ ps)) = p ++ (sep ++ join sep (q ∷ ps))
