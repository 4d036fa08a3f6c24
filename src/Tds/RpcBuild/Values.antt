-- ===== src/Tds/RpcBuild/Values.antt =====
-- The branches of `build_rpc_payload` for numbers, bits, identifiers, bytes and text: the type's byte,
-- its description, and the value.
use sqlum_ai.Common.{
  ℕ, ◌+◌, ◌-◌, ◌*◌, ◌/◌, ◌%◌, ◌^◌, leb, ltb, ◌==◌, Bool, true, false, not, ◌&&◌, ◌||◌, Option, none,
  some, List, [], ◌∷◌, ◌++◌, all, any, keep, length, if◌then◌else◌,
}
use sqlum_ai.Common.Text.{Text, codes, text_eq, lower, strip}
use sqlum_ai.Common.Dict.{get_or}
use sqlum_ai.Common.Integers.{ℤ, int_of, digit_value}
use sqlum_ai.Common.Uuid.{uuid_of}
use sqlum_ai.Common.Decimal.{Decimal, decimal_of, absolute}
use sqlum_ai.Tds.Utf16.{Bytes, encode_ignore}
use sqlum_ai.Tds.ToBytes.{unsigned_bytes, signed_bytes}

-- `out += front`, then what comes next
abbrev pub prefixed : Bytes → Option Bytes → Option Bytes
prefixed front none = none
prefixed front (some b) = some (front ++ b)

-- the value that `int` reads, and 0 where it reads none
unfoldable pub int_value : Text → ℤ
unfolding int_of
int_value value = get_or (ℤ.pos 0) (int_of value)

unfoldable pub int_bytes : Text → Option Bytes
unfolding int_value signed_bytes
int_bytes value = prefixed (0x26 ∷ 4 ∷ 4 ∷ []) (signed_bytes 4 (int_value value))

abbrev pub true_words : List Text
true_words = codes "1" ∷ codes "true" ∷ codes "yes" ∷ []

-- `str(value).strip().lower() in ("1", "true", "yes")`
unfoldable pub bit_value : Text → Bool
unfolding strip lower text_eq
bit_value value = any (text_eq (lower (strip value))) true_words

unfoldable pub bit_bytes : Text → Bytes
unfolding bit_value
bit_bytes value = 0x68 ∷ 1 ∷ 1 ∷ (if bit_value value then 1 else 0) ∷ []

-- `stor_len` by the precision
unfoldable pub stor_len : ℕ → ℕ
stor_len precision =
    if leb precision 9
    then 5
    else if leb precision 19
    then 9
    else if leb precision 28
    then 13
    else 17

-- `max(0, -exponent)`, and the integer of the digits at that scale
unfoldable pub scaled : ℕ → ℤ → ℕ × ℕ
scaled c (ℤ.pos e) = (0, c * 10 ^ e)
scaled c (ℤ.negsuc e) = (e + 1, c)

-- The length of the value, the precision, the scale, the length again, the sign and the digits. A
-- scale above 255 is the ValueError of `bytes`, digits that do not fit the OverflowError.
unfoldable pub decimal_tail : Bool → ℕ × ℕ × ℤ → Option Bytes
unfolding stor_len scaled unsigned_bytes
decimal_tail nonnegative (c, precision, exponent) =
    let at_scale = scaled c exponent in
    let stor = stor_len precision in
    if ltb at_scale.0 256
    then prefixed (stor ∷ precision ∷ at_scale.0 ∷ stor ∷ (if nonnegative then 1 else 0) ∷ [])
        (unsigned_bytes (stor - 1) (ℤ.pos at_scale.1))
    else none

-- `d >= 0` also holds of a negative zero; an infinity has no exponent, and no number is not compared.
unfoldable pub decimal_value_bytes : Decimal → Option Bytes
unfolding decimal_tail absolute
decimal_value_bytes (Decimal.special name) = none
decimal_value_bytes (Decimal.finite negative c count e) =
    decimal_tail (not negative || c == 0) (absolute c count e)

unfoldable pub decimal_bytes : Bool → Text → Option Bytes
unfolding decimal_value_bytes decimal_of
decimal_bytes is_decimal value =
    prefixed ((if is_decimal then 0x6a else 0x6c) ∷ [])
      (decimal_value_bytes (get_or (Decimal.finite false 0 1 (ℤ.pos 0)) (decimal_of value)))

-- the bytes of a number, the first byte the greatest place
unfoldable pub be_bytes : ℕ → ℕ → Bytes → Bytes
be_bytes ℕ.zero n behind = behind
be_bytes (ℕ.suc k) n behind = be_bytes k (n / 256) ((n % 256) ∷ behind)

unfoldable pub uuid_bytes : Text → Bytes
unfolding uuid_of be_bytes
uuid_bytes value = 0x24 ∷ 16 ∷ 16 ∷ be_bytes 16 (get_or 0 (uuid_of value)) []

unfoldable pub is_hex : ℕ → Bool
unfolding digit_value
is_hex c = elim (digit_value 16 c) [ none ↦ false | some v ↦ true ]

unfoldable pub hex_digit : ℕ → ℕ
unfolding digit_value
hex_digit c = get_or 0 (digit_value 16 c)

-- `bytes.fromhex(s)` of hexadecimal digits and spaces, which stand between the pairs only; `none` is
-- the ValueError
unfoldable pub from_hex : Option ℕ → Text → Option Bytes
unfolding hex_digit
from_hex none [] = some []
from_hex (some h) [] = none
from_hex none (c ∷ s) =
    let skipped = from_hex none s in
    let behind = from_hex (some (hex_digit c)) s in if c == b' ' then skipped else behind
from_hex (some h) (c ∷ s) =
    let rest = from_hex none s in
    if c == b' ' then none else prefixed ((16 * h + hex_digit c) ∷ []) rest

unfoldable pub utf8_char : ℕ → Option Bytes
utf8_char c =
    if ltb c 0x80
    then some (c ∷ [])
    else if ltb c 0x800
    then some ((0xc0 + c / 64) ∷ (0x80 + c % 64) ∷ [])
    else if leb 0xd800 c && ltb c 0xe000
    then none
    else if ltb c 0x10000
    then some ((0xe0 + c / 4096) ∷ (0x80 + c / 64 % 64) ∷ (0x80 + c % 64) ∷ [])
    else if ltb c 0x110000
    then some
        ((0xf0 + c / 262144) ∷ (0x80 + c / 4096 % 64) ∷ (0x80 + c / 64 % 64) ∷ (0x80 + c % 64) ∷ [])
    else none

-- `s.encode()`; `none` is the UnicodeEncodeError
unfoldable pub utf8 : Text → Option Bytes
unfolding utf8_char
utf8 [] = some []
utf8 (c ∷ s) = let rest = utf8 s in elim (utf8_char c) [ none ↦ none | some b ↦ prefixed b rest ]

unfoldable pub binary_value : Text → Option Bytes
unfolding is_hex from_hex utf8
binary_value value =
    if all is_hex (keep (λ c. not (c == b' ')) value) then from_hex none value else utf8 value

-- `len(data).to_bytes(2, byteorder="little")`, then the data
unfoldable pub counted : Bytes → Option Bytes
unfolding unsigned_bytes
counted content = elim (unsigned_bytes 2 (ℤ.pos (length content))) [
  | none ↦ none
  | some n ↦ some (n ++ content)
]

unfoldable pub binary_bytes : Text → Option Bytes
unfolding binary_value counted
binary_bytes value = elim (binary_value value) [
  | none ↦ none
  | some content ↦ prefixed (0xa5 ∷ 0x40 ∷ 0x1f ∷ []) (counted content)
]

-- `_collation_bytes`
abbrev pub collation_bytes : Bytes
collation_bytes = 9 ∷ 4 ∷ 0 ∷ 0 ∷ 0 ∷ []

unfoldable pub nvarchar_bytes : Text → Option Bytes
unfolding counted encode_ignore
nvarchar_bytes value =
    prefixed (0xe7 ∷ 0x40 ∷ 0x1f ∷ collation_bytes) (counted (encode_ignore value))
