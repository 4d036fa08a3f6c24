-- ===== src/Tds/RpcBuild/Wire/Reads.antt =====
-- What the reader makes of each type of value that the builder writes.
use sqlum_ai.Common.{
  ℕ, zero, suc, ◌+◌, ◌*◌, ◌^◌, ◌<◌, Bool-cases, ◌≡◌, refl, ap, subst, ◌∙◌, Bool, true, false, not,
  Option, none, some, ◌/◌, ◌%◌, [], ◌∷◌, ◌++◌, keep, length, ltb, ◌==◌, if◌then◌else◌, arith,
  Option-cases, inl, inr, take-append, drop-append, length-append,
}
use mathlib.Core.Option
use sqlum_ai.Common.Text.{Text}
use sqlum_ai.Common.Integers.{ℤ, hex_of}
use sqlum_ai.Common.Uuid.{uuid_of, uuid_digits}
use sqlum_ai.Common.Dict.{get_or}
use sqlum_ai.Tds.Utf16.{Bytes, decode, encode_char, encode_ignore}
use sqlum_ai.Tds.Utf16.RoundTrip.{decode_char}
use sqlum_ai.Tds.ToBytes.{from_le, from_signed, signed_bytes, unsigned_bytes, le_bytes}
use sqlum_ai.Tds.ToBytes.Laws.{
  length-signed_bytes, from_signed-signed_bytes, length-unsigned_bytes, from_le-unsigned_bytes,
}
use sqlum_ai.Tds.RpcBuild.Values.{
  prefixed, int_value, int_bytes, bit_value, bit_bytes, counted, nvarchar_bytes, collation_bytes,
  be_bytes, uuid_bytes, binary_value, binary_bytes,
}
use sqlum_ai.Tds.RpcBuild.Temporal.{date_value, date_bytes}
use sqlum_ai.Tds.RpcBuild.{us_varchar}
use sqlum_ai.Tds.RpcBuild.Wire.{
  Value, split, read_short, read_fixed, read_content, read_binary, from_be, read_value, wire_name,
  encodes,
}

split-append : (n : ℕ) (a s : Bytes) → length a ≡ n → split n (a ++ s) ≡ some (a, s)
split-append n a s h =
    subst (λ k. split k (a ++ s) ≡ some (a, s)) h
      (ground (arith, length-append a s, take-append a s, drop-append a s))

pub read_short-us_varchar :
    (s : Text) (r : Bytes) → read_short (us_varchar s ++ r) ≡ some (wire_name s, r)
unfolding read_short us_varchar
read_short-us_varchar s r = split-append (length (wire_name s)) (wire_name s) r refl

decode-encode_ignore : (s : Text) → decode (encode_ignore s) ≡ some (keep encodes s)
unfolding encode_ignore
decode-encode_ignore [] = unfold decode in refl
decode-encode_ignore (c ∷ s) = elim (Option-cases (encode_char c)) [
  | inr e ↦ rw (encode_ignore, e) (decode-encode_ignore s)
  | inl (b, e) ↦
      rw (encode_ignore, e)
        (decode_char c b (encode_ignore s) e
          ∙ ap (Option.map (λ t. c ∷ t)) (decode-encode_ignore s))
]

pub prefixed-some :
    (f : Bytes) (o : Option Bytes) (b : Bytes)
    → prefixed f o ≡ some b
    → (w : Bytes) × (o ≡ some w) × (b ≡ f ++ w)
prefixed-some f none b h = cc
prefixed-some f (some w) b h = (w, refl, cc)

read_fixed-append :
    (f : Bytes → Value) (declared n : ℕ) (w s : Bytes)
    → length w ≡ n
    → read_fixed f (declared ∷ (n ∷ (w ++ s))) ≡ some (f w, s)
unfolding read_fixed read_short
read_fixed-append f declared n w s h = rw (read_fixed, read_short, split-append n w s h) refl

pub read_value-int :
    (value : Text) (b s : Bytes)
    → int_bytes value ≡ some b
    → read_value (b ++ s) ≡ some (Value.int (int_value value), s)
unfolding int_bytes read_value
read_value-int value b s h =
    let (w, e, eb) = prefixed-some (0x26 ∷ 4 ∷ 4 ∷ []) (signed_bytes 4 (int_value value)) b h in
    rw eb (
      read_fixed-append (λ b. Value.int (from_signed b)) 4 4 w s
        (length-signed_bytes 4 (int_value value) w e)
      ∙ ap (λ z. some (Value.int z, s)) (from_signed-signed_bytes 4 (int_value value) w e))

bit_byte : (b : Bool) → not (from_le ((if b then 1 else 0) ∷ []) == 0) ≡ b
unfolding from_le
bit_byte true = refl
bit_byte false = refl

pub read_value-bit :
    (value : Text) (s : Bytes)
    → read_value (bit_bytes value ++ s) ≡ some (Value.bit (bit_value value), s)
unfolding read_value bit_bytes
read_value-bit value s =
    read_fixed-append (λ b. Value.bit (not (from_le b == 0))) 1 1
      ((if bit_value value then 1 else 0) ∷ []) s refl
    ∙ ap (λ b. some (Value.bit b, s)) (bit_byte (bit_value value))

pub read_value-date :
    (value : Text) (b s : Bytes)
    → date_bytes value ≡ some b
    → read_value (b ++ s) ≡ some (Value.date (date_value value), s)
unfolding date_bytes read_value
read_value-date value b s h =
    let (w, e, eb) =
      prefixed-some (0x28 ∷ 3 ∷ 3 ∷ []) (unsigned_bytes 3 (ℤ.pos (date_value value))) b h in
    rw eb (
      read_fixed-append (λ b. Value.date (from_le b)) 3 3 w s
        (length-unsigned_bytes 3 (date_value value) w e)
      ∙ ap (λ n. some (Value.date n, s)) (from_le-unsigned_bytes 3 (date_value value) w e))

counted-some :
    (content b : Bytes)
    → counted content ≡ some b
    → b ≡ (length content % 256) ∷ (length content / 256) ∷ content
unfolding counted unsigned_bytes le_bytes
counted-some content b h = ground arith

read_content-counted :
    (value : Text) (b s : Bytes)
    → counted (encode_ignore value) ≡ some b
    → read_content (b ++ s) ≡ some (Value.nvarchar (keep encodes value), s)
unfolding read_content
read_content-counted value b s h =
    let content = encode_ignore value in
    rw
      (
        counted-some content b h,
        read_content,
        split-append (length content % 256 + 256 * (length content / 256)) content s (omega arith),
        decode-encode_ignore value,
      )
      refl

pub read_value-nvarchar :
    (value : Text) (b s : Bytes)
    → nvarchar_bytes value ≡ some b
    → read_value (b ++ s) ≡ some (Value.nvarchar (keep encodes value), s)
unfolding nvarchar_bytes read_value
read_value-nvarchar value b s h =
    let (w, e, eb) =
      prefixed-some (0xe7 ∷ 0x40 ∷ 0x1f ∷ collation_bytes) (counted (encode_ignore value)) b h in
    rw eb (read_content-counted value w s e)

from_be-be_bytes : (k n : ℕ) (s : Bytes) → n < 256 ^ k → from_be 0 (be_bytes k n s) ≡ from_be n s
unfolding from_be be_bytes
from_be-be_bytes zero n s h = ap (λ m. from_be m s) (omega arith)
from_be-be_bytes (suc k) n s h =
    from_be-be_bytes k (n / 256) ((n % 256) ∷ s) (omega arith) ∙ ap (λ m. from_be m s) (omega arith)

length-be_bytes : (k n : ℕ) (s : Bytes) → length (be_bytes k n s) ≡ k + length s
unfolding be_bytes
length-be_bytes zero n s = omega arith
length-be_bytes (suc k) n s = omega (arith, length-be_bytes k (n / 256) ((n % 256) ∷ s))

uuid_of-bound : (value : Text) → get_or 0 (uuid_of value) < 256 ^ 16
unfolding uuid_of
uuid_of-bound value = elim (Bool-cases (length (uuid_digits value) == 32)) [
  | inr e ↦ rw (uuid_of, e) (omega arith)
  | inl e ↦ elim (Option-cases (hex_of (uuid_digits value))) [
    | inr h ↦ rw (uuid_of, e, h) (omega arith)
    | inl (ℤ.negsuc n, h) ↦ rw (uuid_of, e, h) (omega arith)
    | inl (ℤ.pos n, h) ↦ elim (Bool-cases (ltb n (2 ^ 128))) [
      | inr big ↦ rw (uuid_of, e, h, big) (omega arith)
      | inl small ↦ rw (uuid_of, e, h, small) (ground arith)
    ]
  ]
]

pub read_value-uuid :
    (value : Text) (s : Bytes)
    → read_value (uuid_bytes value ++ s) ≡ some (Value.uuid (get_or 0 (uuid_of value)), s)
unfolding read_value uuid_bytes from_be
read_value-uuid value s =
    let n = get_or 0 (uuid_of value) in
    read_fixed-append (λ b. Value.uuid (from_be 0 b)) 16 16 (be_bytes 16 n []) s
      (omega (arith, length-be_bytes 16 n []))
    ∙ ap (λ m. some (Value.uuid m, s)) (from_be-be_bytes 16 n [] (uuid_of-bound value))

read_binary-counted :
    (content b s : Bytes)
    → counted content ≡ some b
    → read_binary (b ++ s) ≡ some (Value.binary content, s)
unfolding read_binary
read_binary-counted content b s h =
    rw
      (
        counted-some content b h,
        read_binary,
        split-append (length content % 256 + 256 * (length content / 256)) content s (omega arith),
      )
      refl

pub read_value-binary :
    (value : Text) (b s : Bytes)
    → binary_bytes value ≡ some b
    → read_value (b ++ s) ≡ some (Value.binary (get_or [] (binary_value value)), s)
unfolding binary_bytes read_value
read_value-binary value b s h = elim (Option-cases (binary_value value)) [
  | inr e ↦ absurd (cc (rw (binary_bytes, e) at h))
  | inl (content, e) ↦
      let (w, ew, eb) =
        prefixed-some (0xa5 ∷ 0x40 ∷ 0x1f ∷ []) (counted content) b (rw (binary_bytes, e) at h) in
      rw (eb, e) (read_binary-counted content w s ew)
]
