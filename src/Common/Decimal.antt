-- ===== src/Common/Decimal.antt =====
-- Python's `Decimal`: reading one from a text, and its absolute value in the default context, which
-- keeps 28 digits.
use Prim.Native.Nat.{ℕ, ◌+◌, ◌-◌, ◌*◌, ◌/◌, ◌%◌, ◌^◌}
use mathlib.Core.Bool.{Bool, true, not, ◌&&◌, ◌||◌}
use mathlib.Core.Option.{Option, none, some}
use mathlib.Core.List.{[], ◌∷◌, ◌++◌}
use sqlum_ai.Common.Tests.{ltb, leb, ◌==◌, if◌then◌else◌}
use sqlum_ai.Common.Lists.{length, keep, all, drop, take, replicate}
use sqlum_ai.Common.Text.{
  Text, codes, strip, lower, starts_with, is_digit, lstrip_by, text_eq, nonempty,
}
use sqlum_ai.Common.Show.{show}
use sqlum_ai.Common.Integers.{ℤ, ◌+ℤ◌, difference, digits_value, split_sign, signed}

-- `finite`: the sign, the coefficient with the number of its digits, and the exponent of 10. A
-- `special` is an infinity or no number, as `str` writes it.
pub data Decimal : Type 0 where
  finite : Bool → ℕ → ℕ → ℤ → Decimal
  special : Text → Decimal

unfoldable pub all_digits : Text → Bool
unfolding is_digit
all_digits = all is_digit

-- The digits before the first character of a kind, and what is behind it, if it is there.
unfoldable pub cut_at : (ℕ → Bool) → Text → Text × Option Text
cut_at p [] = ([], none)
cut_at p (c ∷ s) = let rest = cut_at p s in if p c then ([], some s) else (c ∷ rest.0, rest.1)

abbrev pub is_zero : ℕ → Bool
is_zero c = c == b'0'

-- The coefficient's digits without zeros in front; 0 has one digit.
unfoldable pub digit_count : Text → ℕ
unfolding lstrip_by
digit_count s = let n = length (lstrip_by is_zero s) in if n == 0 then 1 else n

-- The exponent that is written; `none` where no digits are.
unfoldable pub written_exponent : Option Text → Option ℤ
unfolding all_digits digits_value split_sign signed
written_exponent none = some (ℤ.pos 0)
written_exponent (some e) =
    let parts = split_sign e in
    if nonempty parts.1 && all_digits parts.1
    then elim (digits_value 10 0 true parts.1) [ none ↦ none | some n ↦ some (signed parts.0 n) ]
    else none

-- The greatest exponent of a leading digit is 999999999999999999, the least of a last one
-- -1999999999999999997.
unfoldable pub within_limits : ℕ → ℤ → Bool
within_limits count (ℤ.pos e) = leb (e + count - 1) 999999999999999999
within_limits count (ℤ.negsuc e) = leb e 1999999999999999996

unfoldable pub finite_of : Bool → Text → Text → ℤ → Option Decimal
unfolding digits_value digit_count within_limits ◌+ℤ◌ difference
finite_of negative whole fraction e =
    let exponent = e +ℤ difference 0 (length fraction) in
    let count = digit_count (whole ++ fraction) in
    elim (digits_value 10 0 true (whole ++ fraction)) [
      | none ↦ none
      | some n ↦
          if within_limits count exponent
          then some (Decimal.finite negative n count exponent)
          else none
    ]

abbrev pub or_empty : Option Text → Text
or_empty none = []
or_empty (some s) = s

unfoldable pub number_of : Bool → Text → Option Decimal
unfolding cut_at all_digits written_exponent finite_of
number_of negative s =
    let parts = cut_at (λ c. c == b'e') s in
    let mantissa = cut_at (λ c. c == b'.') parts.0 in
    let whole = mantissa.0 in
    let fraction = or_empty mantissa.1 in
    if all_digits whole && all_digits fraction
    then elim (written_exponent parts.1) [
      | none ↦ none
      | some e ↦ finite_of negative whole fraction e
    ]
    else none

-- An infinity, or no number with its digits, which `str` writes without zeros in front.
unfoldable pub special_of : Text → Option Text
unfolding all_digits starts_with text_eq lstrip_by
special_of s =
    if text_eq s (codes "inf") || text_eq s (codes "infinity")
    then some (codes "Infinity")
    else if starts_with s (codes "nan") && all_digits (drop 3 s)
    then some (codes "NaN" ++ lstrip_by is_zero (drop 3 s))
    else if starts_with s (codes "snan") && all_digits (drop 4 s)
    then some (codes "sNaN" ++ lstrip_by is_zero (drop 4 s))
    else none

abbrev pub minus : Bool → Text
minus negative = if negative then codes "-" else []

-- `Decimal(s)`; `none` is the InvalidOperation
unfoldable pub decimal_of : Text → Option Decimal
unfolding strip lower split_sign special_of number_of
decimal_of s =
    let parts = split_sign (keep (λ c. not (c == b'_')) (strip (lower s))) in
    elim (special_of parts.1) [
      | some name ↦ some (Decimal.special (minus parts.0 ++ name))
      | none ↦ number_of parts.0 parts.1
    ]

-- The digits with a point in front of the last `k` of them, and a zero in front of the point at least.
unfoldable pub pointed : ℕ → Text → Text
pointed k s =
    let padded = replicate (k + 1 - length s) b'0' ++ s in
    take (length padded - k) padded ++ b'.' ∷ drop (length padded - k) padded

-- `format(d, "f")`; a zero loses an exponent above 0
unfoldable pub format_fixed : Decimal → Text
unfolding show pointed
format_fixed (Decimal.special name) = name
format_fixed (Decimal.finite negative c count (ℤ.pos e)) =
    minus negative ++ (show c ++ (if c == 0 then [] else replicate e b'0'))
format_fixed (Decimal.finite negative c count (ℤ.negsuc e)) =
    minus negative ++ pointed (e + 1) (show c)

-- c / 10 ^ k rounded to the nearest, half to even
unfoldable pub round_off : ℕ → ℕ → ℕ
round_off c k =
    let q = c / 10 ^ k in
    let r = c % 10 ^ k in
    if ltb (10 ^ k) (2 * r) || (2 * r == 10 ^ k && q % 2 == 1) then q + 1 else q

-- `abs(d)` of a finite number: the coefficient, the number of its digits, the exponent.
unfoldable pub absolute : ℕ → ℕ → ℤ → ℕ × ℕ × ℤ
unfolding round_off ◌+ℤ◌
absolute c count e =
    let k = count - 28 in
    let rounded = round_off c k in
    if leb count 28
    then (c, count, e)
    else if rounded == 10 ^ 28
    then (10 ^ 27, 28, e +ℤ ℤ.pos (k + 1))
    else (rounded, 28, e +ℤ ℤ.pos k)
