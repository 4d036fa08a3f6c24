-- ===== src/Common/Integers.antt =====
-- Python's `int`: the whole numbers with the operations that the program uses, and `int(s)`, which
-- reads a text. The digits are the ASCII ones.
use Prim.Native.Nat.{ℕ, suc, ◌+◌, ◌-◌, ◌*◌}
use mathlib.Core.Bool.{Bool, true, false, not, ◌&&◌, ◌||◌}
use mathlib.Core.Option
use mathlib.Core.Option.{Option, none, some}
use mathlib.Core.List.{[], ◌∷◌}
use sqlum_ai.Common.Tests.{ltb, leb, ◌==◌, if◌then◌else◌}
use sqlum_ai.Common.Lists.{length, keep}
use sqlum_ai.Common.Text.{Text, strip}

-- `negsuc n` is -(n + 1).
pub data ℤ : Type 0 where
  pos : ℕ → ℤ
  negsuc : ℕ → ℤ

-- a - b
unfoldable pub difference : ℕ → ℕ → ℤ
difference a b = if leb b a then ℤ.pos (a - b) else ℤ.negsuc (b - a - 1)

infixl 30 ◌+ℤ◌
unfoldable pub ◌+ℤ◌ : ℤ → ℤ → ℤ
unfolding difference
ℤ.pos a +ℤ ℤ.pos b = ℤ.pos (a + b)
ℤ.pos a +ℤ ℤ.negsuc b = difference a (suc b)
ℤ.negsuc a +ℤ ℤ.pos b = difference b (suc a)
ℤ.negsuc a +ℤ ℤ.negsuc b = ℤ.negsuc (a + b + 1)

-- A number taken `k` times.
unfoldable pub times : ℕ → ℤ → ℤ
unfolding difference
times k (ℤ.pos a) = ℤ.pos (a * k)
times k (ℤ.negsuc a) = difference 0 (suc a * k)

-- A magnitude with its sign.
unfoldable pub signed : Bool → ℕ → ℤ
unfolding difference
signed negative n = if negative then difference 0 n else ℤ.pos n

-- The digit that a character is, below the base.
unfoldable pub digit_value : ℕ → ℕ → Option ℕ
digit_value base c =
    let v =
      if leb 48 c && leb c 57
      then c - 48
      else if leb 65 c && leb c 90
      then c - 55
      else if leb 97 c && leb c 122
      then c - 87
      else base in
    if ltb v base then some v else none

-- The value of digits, which single underscores may part; `due` says that a digit must come.
unfoldable pub digits_value : ℕ → ℕ → Bool → Text → Option ℕ
unfolding digit_value
digits_value base acc due [] = if due then none else some acc
digits_value base acc due (c ∷ s) =
    let behind = digits_value base acc true s in
    if c == b'_' then (if due then none else behind) else elim (digit_value base c) [
      | none ↦ none
      | some v ↦ digits_value base (acc * base + v) false s
    ]

-- A sign in front, and what is behind it.
unfoldable pub split_sign : Text → Bool × Text
split_sign [] = (false, [])
split_sign (c ∷ s) =
    if c == b'-' then (true, s) else if c == b'+' then (false, s) else (false, c ∷ s)

-- Python reads at most 4300 decimal digits.
abbrev pub within_digit_limit : Text → Bool
within_digit_limit s = leb (length (keep (λ c. not (c == b'_')) s)) 4300

-- `int(s)`; `none` is the ValueError
unfoldable pub int_of : Text → Option ℤ
unfolding strip split_sign digits_value signed
int_of s =
    let signed_digits = split_sign (strip s) in
    if within_digit_limit signed_digits.1
    then Option.map (signed signed_digits.0) (digits_value 10 0 true signed_digits.1)
    else none

-- `0x` in front may be left out, an underscore may follow it.
unfoldable pub without_prefix : Text → Text
without_prefix (z ∷ (x ∷ s)) =
    if z == b'0' && (x == b'x' || x == b'X')
    then elim s [ [] ↦ [] | c ∷ t ↦ if c == b'_' then t else c ∷ t ]
    else z ∷ (x ∷ s)
without_prefix s = s

-- `int(s, 16)`
unfoldable pub hex_of : Text → Option ℤ
unfolding strip split_sign digits_value signed without_prefix
hex_of s =
    let signed_digits = split_sign (strip s) in
    Option.map (signed signed_digits.0) (digits_value 16 0 true (without_prefix signed_digits.1))
