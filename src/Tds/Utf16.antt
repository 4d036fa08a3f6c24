-- ===== src/Tds/Utf16.antt =====
-- The codecs that the program uses: UTF-16LE, strict and with errors="ignore", and Latin-1.
pub mod RoundTrip
use sqlum_ai.Common.{
  ℕ, ◌+◌, ◌-◌, ◌*◌, ◌/◌, ◌%◌, ◌<◌, Bool, ◌&&◌, Option, none, some, List, [], ◌∷◌, ◌++◌, leb, ltb,
  if◌then◌else◌,
}
use mathlib.Core.Option
use sqlum_ai.Common.Text.{Text}

abbrev pub Bytes : Type 0
Bytes = List ℕ

abbrev pub IsByte : ℕ → Type 0
IsByte b = b < 256

unfoldable pub is_high : ℕ → Bool
is_high u = leb 0xd800 u && ltb u 0xdc00

unfoldable pub is_low : ℕ → Bool
is_low u = leb 0xdc00 u && ltb u 0xe000

-- the two bytes of a code unit
abbrev pub unit_bytes : ℕ → Bytes
unit_bytes u = (u % 256) ∷ (u / 256) ∷ []

-- The bytes of one code point; `none` for a surrogate, and for what is no code point.
unfoldable pub encode_char : ℕ → Option Bytes
unfolding is_high is_low
encode_char c =
    if ltb c 0xd800
    then some (unit_bytes c)
    else if ltb c 0xe000
    then none
    else if ltb c 0x10000
    then some (unit_bytes c)
    else if ltb c 0x110000
    then some
        (unit_bytes (0xd800 + (c - 0x10000) / 1024) ++ unit_bytes (0xdc00 + (c - 0x10000) % 1024))
    else none

-- `s.encode("utf-16le")`; `none` is the UnicodeEncodeError
unfoldable pub encode : Text → Option Bytes
unfolding encode_char
encode [] = some []
encode (c ∷ s) =
    let rest = encode s in
    elim (encode_char c) [
      | none ↦ none
      | some b ↦ elim rest [ none ↦ none | some r ↦ some (b ++ r) ]
    ]

-- `s.encode("utf-16le", errors="ignore")`
unfoldable pub encode_ignore : Text → Bytes
unfolding encode_char
encode_ignore [] = []
encode_ignore (c ∷ s) =
    let rest = encode_ignore s in elim (encode_char c) [ none ↦ rest | some b ↦ b ++ rest ]

-- The code units of the bytes; `none` if a byte is left over.
unfoldable pub units : Bytes → Option (List ℕ)
units [] = some []
units (a ∷ []) = none
units (a ∷ (b ∷ s)) = Option.map (λ us. (a + 256 * b) ∷ us) (units s)

-- The code points of the units, behind a high surrogate or not; `none` where they do not pair up.
unfoldable pub join_units : Option ℕ → List ℕ → Option Text
unfolding is_high is_low
join_units none [] = some []
join_units (some h) [] = none
join_units none (u ∷ us) =
    let behind = join_units (some u) us in
    let plain = Option.map (λ s. u ∷ s) (join_units none us) in
    if is_high u then behind else if is_low u then none else plain
join_units (some h) (u ∷ us) =
    let paired =
      Option.map (λ s. (0x10000 + (h - 0xd800) * 1024 + (u - 0xdc00)) ∷ s) (join_units none us) in
    if is_low u then paired else none

abbrev pub join_all : Option (List ℕ) → Option Text
join_all none = none
join_all (some us) = join_units none us

-- `b.decode("utf-16le")`; `none` is the UnicodeDecodeError
unfoldable pub decode : Bytes → Option Text
unfolding units join_units
decode b = join_all (units b)

-- The code points, passing over surrogates that do not pair up.
unfoldable pub join_ignore : Option ℕ → List ℕ → Text
unfolding is_high is_low
join_ignore p [] = []
join_ignore none (u ∷ us) =
    let behind = join_ignore (some u) us in
    let skipped = join_ignore none us in
    if is_high u then behind else if is_low u then skipped else u ∷ skipped
join_ignore (some h) (u ∷ us) =
    let behind = join_ignore (some u) us in
    let skipped = join_ignore none us in
    if is_low u
    then (0x10000 + (h - 0xd800) * 1024 + (u - 0xdc00)) ∷ skipped
    else if is_high u
    then behind
    else u ∷ skipped

-- The code units, without a byte that is left over.
unfoldable pub whole_units : Bytes → List ℕ
whole_units [] = []
whole_units (a ∷ []) = []
whole_units (a ∷ (b ∷ s)) = (a + 256 * b) ∷ whole_units s

-- `b.decode("utf-16le", errors="ignore")`
unfoldable pub decode_ignore : Bytes → Text
unfolding join_ignore whole_units
decode_ignore b = join_ignore none (whole_units b)

-- `b.decode("latin-1")`: each byte is its code point
abbrev pub decode_latin1 : Bytes → Text
decode_latin1 b = b
