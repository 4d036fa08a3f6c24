-- ===== src/Tds/RpcBuild/Wire.antt =====
-- A reader of an RPC payload, and what it reads of a payload that `build_rpc_payload` built of NVARCHAR,
-- INT, BIT, DATE, UNIQUEIDENTIFIER and VARBINARY parameters.
pub mod Reads
use sqlum_ai.Common.{
  ℕ, zero, suc, ◌+◌, ◌*◌, ◌^◌, ◌<◌, Bool-cases, ◌≡◌, refl, ap, subst, ◌∙◌, Bool, true, false, ◌||◌,
  not, Option, none, some, List, ◌/◌, ◌%◌, [], ◌∷◌, ◌++◌, take, drop, keep, length, leb, ltb, ◌==◌,
  is_some, if◌then◌else◌, arith, Option-cases, inl, inr, take-append, drop-append, length-append,
}
use mathlib.Core.Option
use sqlum_ai.Common.Text.{Text, codes, text_eq, lower}
use sqlum_ai.Common.Integers.{ℤ, hex_of}
use sqlum_ai.Common.Uuid.{uuid_of, uuid_digits}
use sqlum_ai.Common.Dict.{get_or}
use sqlum_ai.Tds.Utf16.{Bytes, decode, encode_char, encode_ignore}
use sqlum_ai.Tds.Utf16.RoundTrip.{decode_char}
use sqlum_ai.Tds.ToBytes.{from_le, from_signed, signed_bytes, unsigned_bytes, le_bytes}
use sqlum_ai.Tds.ToBytes.Laws.{
  length-signed_bytes, from_signed-signed_bytes, length-unsigned_bytes, from_le-unsigned_bytes,
}
use sqlum_ai.Tds.RpcBuild.Values.{
  prefixed, int_value, int_bytes, bit_value, bit_bytes, counted, nvarchar_bytes, collation_bytes,
  be_bytes, uuid_bytes, binary_value, binary_bytes,
}
use sqlum_ai.Tds.RpcBuild.Temporal.{date_value, date_bytes}
use sqlum_ai.Tds.RpcBuild.{us_varchar, Param, at_name}

-- A value of the payload.
pub data Value : Type 0 where
  int : ℤ → Value
  bit : Bool → Value
  date : ℕ → Value
  uuid : ℕ → Value
  binary : Bytes → Value
  nvarchar : Text → Value

-- a number of bytes, and those behind them
abbrev pub split : ℕ → Bytes → Option (Bytes × Bytes)
split n s = if leb n (length s) then some (take n s, drop n s) else none

-- bytes behind their number
unfoldable pub read_short : Bytes → Option (Bytes × Bytes)
read_short [] = none
read_short (n ∷ s) = split n s

-- the value of an INTN, a BITN, a DATE or a GUID behind its declared length
unfoldable pub read_fixed : (Bytes → Value) → Bytes → Option (Value × Bytes)
unfolding read_short
read_fixed value [] = none
read_fixed value (declared ∷ s) = elim (read_short s) [
  | none ↦ none
  | some (content, rest) ↦ some (value content, rest)
]

-- the content of an NVARCHAR behind its length of two bytes
unfoldable pub read_content : Bytes → Option (Value × Bytes)
unfolding decode
read_content (a ∷ (b ∷ s)) = elim (split (a + 256 * b) s) [
  | none ↦ none
  | some (content, rest) ↦ elim (decode content) [
    | none ↦ none
    | some text ↦ some (Value.nvarchar text, rest)
  ]
]
read_content s = none

-- the bytes of a VARBINARY behind their number, which takes two bytes
unfoldable pub read_binary : Bytes → Option (Value × Bytes)
read_binary (a ∷ (b ∷ s)) = elim (split (a + 256 * b) s) [
  | none ↦ none
  | some (content, rest) ↦ some (Value.binary content, rest)
]
read_binary s = none

-- the number of some bytes, the highest first, behind a number
unfoldable pub from_be : ℕ → Bytes → ℕ
from_be n [] = n
from_be n (b ∷ s) = from_be (n * 256 + b) s

-- a value by its type's byte; an NVARCHAR has its declared length and five bytes of collation
unfoldable pub read_value : Bytes → Option (Value × Bytes)
unfolding read_fixed read_content read_binary from_signed from_le from_be
read_value [] = none
read_value (t ∷ s) =
    if t == 0x26
    then read_fixed (λ b. Value.int (from_signed b)) s
    else if t == 0x68
    then read_fixed (λ b. Value.bit (not (from_le b == 0))) s
    else if t == 0x28
    then read_fixed (λ b. Value.date (from_le b)) s
    else if t == 0x24
    then read_fixed (λ b. Value.uuid (from_be 0 b)) s
    else if t == 0xa5
    then read_binary (drop 2 s)
    else if t == 0xe7
    then read_content (drop 7 s)
    else none

-- a parameter: its name, seven bytes of status and flags, its value
unfoldable pub read_param : Bytes → Option ((Text × Value) × Bytes)
unfolding read_short read_value
read_param s = elim (read_short s) [
  | none ↦ none
  | some (name, behind) ↦ elim (read_value (drop 7 behind)) [
    | none ↦ none
    | some (value, rest) ↦ some ((name, value), rest)
  ]
]

-- the parameters up to the end of the bytes, `fuel` of them at most
unfoldable pub read_params : ℕ → Bytes → Option (List (Text × Value))
unfolding read_param
read_params fuel [] = some []
read_params zero (b ∷ s) = none
read_params (suc fuel) (b ∷ s) = elim (read_param (b ∷ s)) [
  | none ↦ none
  | some (p, rest) ↦ elim (read_params fuel rest) [ none ↦ none | some ps ↦ some (p ∷ ps) ]
]

-- the procedure's name, two bytes of flags, the parameters; each takes a byte at least
unfoldable pub read_payload : Bytes → Option (Text × List (Text × Value))
unfolding read_short read_params
read_payload s = elim (read_short s) [
  | none ↦ none
  | some (name, behind) ↦ elim (read_params (length s) (drop 2 behind)) [
    | none ↦ none
    | some ps ↦ some (name, ps)
  ]
]

-- the names of the payload: ASCII characters, at most 255
abbrev pub wire_name : Text → Text
wire_name s = take 255 (keep (λ c. ltb c 128) s)

-- the characters that UTF-16 can carry
abbrev pub encodes : ℕ → Bool
encodes c = is_some (encode_char c)

abbrev pub wire_value : Text → Text → Value
wire_value t value =
    if text_eq t (codes "int")
    then Value.int (int_value value)
    else if text_eq t (codes "bit")
    then Value.bit (bit_value value)
    else if text_eq t (codes "date")
    then Value.date (date_value value)
    else if text_eq t (codes "uniqueidentifier")
    then Value.uuid (get_or 0 (uuid_of value))
    else if text_eq t (codes "varbinary")
    then Value.binary (get_or [] (binary_value value))
    else Value.nvarchar (keep encodes value)

abbrev pub wire : Param → Text × Value
wire (name, value, typ) = (wire_name (at_name name), wire_value (lower typ) value)

-- the types that are read back
abbrev pub is_simple : Text → Bool
is_simple t =
    text_eq t (codes "nvarchar")
    || text_eq t (codes "int")
    || text_eq t (codes "bit")
    || text_eq t (codes "date")
    || text_eq t (codes "uniqueidentifier")
    || text_eq t (codes "varbinary")

abbrev pub IsSimple : Param → Type 0
IsSimple (name, value, typ) = is_simple (lower typ) ≡ true
