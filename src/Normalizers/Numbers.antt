-- ===== src/Normalizers/Numbers.antt =====
-- `normalize_decimal` and `normalize_uuid`.
use sqlum_ai.Common.{
  ℕ, zero, suc, ◌+◌, ◌/◌, ◌%◌, ◌==◌, Bool, not, ◌&&◌, ◌||◌, Option, none, some, [], ◌∷◌, ◌++◌, map,
  keep, any, take, drop, ltb, if◌then◌else◌,
}
use sqlum_ai.Common.Text.{Text, codes, strip, strip_by, lower}
use sqlum_ai.Common.Decimal.{decimal_of, format_fixed}
use sqlum_ai.Common.Uuid.{uuid_of}

-- `s.replace(" ", "").replace("_", "")`
unfoldable pub without_gaps : Text → Text
without_gaps s = keep (λ c. not (c == b' ' || c == b'_')) s

-- A comma is the point where there is no point.
unfoldable pub comma_as_point : Text → Text
comma_as_point v =
    if any (λ c. c == b',') v && not (any (λ c. c == b'.') v)
    then map (λ c. if c == b',' then b'.' else c) v
    else v

unfoldable pub normalize_decimal : Text → Option (Text × Text)
unfolding strip without_gaps comma_as_point decimal_of format_fixed
normalize_decimal value = elim (decimal_of (comma_as_point (without_gaps (strip value)))) [
  | none ↦ none
  | some d ↦ some (format_fixed d, codes "decimal")
]

abbrev hex_char : ℕ → ℕ
hex_char v = if ltb v 10 then 48 + v else 87 + v

-- `n` in hexadecimal, in `k` digits, before what is behind
unfoldable pub hex_digits : ℕ → ℕ → Text → Text
hex_digits zero n behind = behind
hex_digits (suc k) n behind = hex_digits k (n / 16) (hex_char (n % 16) ∷ behind)

-- `str(u)`: 32 digits with dashes
unfoldable pub uuid_text : ℕ → Text
unfolding hex_digits
uuid_text n =
    let s = hex_digits 32 n [] in
    take 8 s
    ++ b'-' ∷ take 4 (drop 8 s)
    ++ b'-' ∷ take 4 (drop 12 s)
    ++ b'-' ∷ take 4 (drop 16 s)
    ++ b'-' ∷ drop 20 s

abbrev is_wrapping : ℕ → Bool
is_wrapping c = c == b'{' || c == b'}' || c == b'(' || c == b')' || c == b' '

unfoldable pub normalize_uuid : Text → Option (Text × Text)
unfolding strip lower strip_by uuid_of uuid_text
normalize_uuid value = elim (uuid_of (strip_by is_wrapping (lower (strip value)))) [
  | none ↦ none
  | some n ↦ some (uuid_text n, codes "uuid")
]
