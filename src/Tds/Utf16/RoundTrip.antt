-- ===== src/Tds/Utf16/RoundTrip.antt =====
-- Decoding what was encoded, and encoding what was decoded.
use sqlum_ai.Common.{
  ℕ, ◌+◌, ◌-◌, ◌*◌, ◌/◌, ◌%◌, ◌<◌, ◌≤◌, ◌⊎◌, ◌≡◌, refl, ap, ◌∙◌, true, false, Option, none, some,
  some-injective, subst, List, [], ◌∷◌, ◌++◌, All, arith, ltb, Option-cases, inl, inr, Bool-cases,
}
use mathlib.Core.Option
use sqlum_ai.Common.Text.{Text}
use sqlum_ai.Tds.Utf16.{
  Bytes, IsByte, is_high, is_low, unit_bytes, encode_char, encode, units, join_units, join_all,
  decode,
}

units-unit : (u : ℕ) (b : Bytes) → units (unit_bytes u ++ b) ≡ Option.map (λ us. u ∷ us) (units b)
unfolding units
units-unit u b = ap (λ x. Option.map (λ us. x ∷ us) (units b)) (omega arith)

join_unit :
    (u : ℕ) (o : Option (List ℕ))
    → is_high u ≡ false
    → is_low u ≡ false
    → join_all (Option.map (λ us. u ∷ us) o) ≡ Option.map (λ s. u ∷ s) (join_all o)
unfolding join_units
join_unit u none hh hl = refl
join_unit u (some us) hh hl = rw (hh, hl)

join_pair :
    (h l : ℕ) (o : Option (List ℕ))
    → is_high h ≡ true
    → is_low l ≡ true
    → join_all (Option.map (λ us. h ∷ us) (Option.map (λ us. l ∷ us) o))
      ≡ Option.map (λ s. (0x10000 + (h - 0xd800) * 1024 + (l - 0xdc00)) ∷ s) (join_all o)
unfolding join_units
join_pair h l none hh hl = refl
join_pair h l (some us) hh hl = rw (hh, hl)

decode_unit :
    (u : ℕ) (r : Bytes)
    → is_high u ≡ false
    → is_low u ≡ false
    → decode (unit_bytes u ++ r) ≡ Option.map (λ s. u ∷ s) (decode r)
unfolding decode
decode_unit u r hh hl = ap join_all (units-unit u r) ∙ join_unit u (units r) hh hl

decode_pair :
    (h l : ℕ) (r : Bytes)
    → is_high h ≡ true
    → is_low l ≡ true
    → decode (unit_bytes h ++ (unit_bytes l ++ r))
      ≡ Option.map (λ s. (0x10000 + (h - 0xd800) * 1024 + (l - 0xdc00)) ∷ s) (decode r)
unfolding decode
decode_pair h l r hh hl =
    ap join_all (units-unit h (unit_bytes l ++ r) ∙ ap (Option.map (λ us. h ∷ us)) (units-unit l r))
    ∙ join_pair h l (units r) hh hl

-- What a code point that encodes is, and its bytes.
char_cases :
    (c : ℕ) (b : Bytes)
    → encode_char c ≡ some b
    → ((is_high c ≡ false) × (is_low c ≡ false) × (c < 0x10000) × (b ≡ unit_bytes c))
      ⊎ ((0x10000 ≤ c)
          × (c < 0x110000)
          × (b
              ≡ unit_bytes (0xd800 + (c - 0x10000) / 1024)
                ++ unit_bytes (0xdc00 + (c - 0x10000) % 1024)))
unfolding encode_char is_high is_low
char_cases c b h = elim (Bool-cases (ltb c 0x10000)) [
  | inl small ↦ inl (ground arith, ground arith, ground arith, ground arith)
  | inr big ↦ inr (ground arith, ground arith, ground arith)
]

-- reading one encoded code point, before the bytes `r`
pub decode_char :
    (c : ℕ) (b r : Bytes)
    → encode_char c ≡ some b
    → decode (b ++ r) ≡ Option.map (λ s. c ∷ s) (decode r)
decode_char c b r h = elim (char_cases c b h) [
  | inl (hh, hl, _, e) ↦ rw e (decode_unit c r hh hl)
  | inr (lo, hi, e) ↦ rw e (
      decode_pair (0xd800 + (c - 0x10000) / 1024) (0xdc00 + (c - 0x10000) % 1024) r
        (unfold is_high in ground arith) (unfold is_low in ground arith)
      ∙ ap (λ x. Option.map (λ s. x ∷ s) (decode r)) (omega arith))
]

encode_parts :
    (c : ℕ) (s : Text) (b : Bytes)
    → encode (c ∷ s) ≡ some b
    → (d : Bytes) × (r : Bytes) × (encode_char c ≡ some d) × (encode s ≡ some r) × (b ≡ d ++ r)
unfolding encode
encode_parts c s b h = elim (Option-cases (encode_char c)) [
  | inr e ↦ absurd (ground (arith, e))
  | inl (d, e) ↦ elim (Option-cases (encode s)) [
    | inr e' ↦ absurd (ground (arith, e, e'))
    | inl (r, e') ↦ (d, r, e, e', ground (arith, e, e'))
  ]
]

decode_nil : (b : Bytes) → encode [] ≡ some b → decode b ≡ some []
unfolding encode decode
decode_nil b h = subst (λ x. decode x ≡ some []) (some-injective _ _ h) refl

-- A text that encodes is read back from its bytes.
pub decode-encode : (s : Text) (b : Bytes) → encode s ≡ some b → decode b ≡ some s
decode-encode [] b h = decode_nil b h
decode-encode (c ∷ s) b h =
    let (d, r, hd, hr, e) = encode_parts c s b h in
    rw e (decode_char c d r hd ∙ ap (Option.map (λ t. c ∷ t)) (decode-encode s r hr))

map-eq-some :
    {A B : Type 0} (f : A → B) (o : Option A) {b : B}
    → Option.map f o ≡ some b
    → (a : A) × (o ≡ some a) × (f a ≡ b)
map-eq-some f none h = cc
map-eq-some f (some a) h = (a, refl, some-injective _ _ h)

-- The bytes of a list of code units.
abbrev flat : List ℕ → Bytes
flat [] = []
flat (u ∷ us) = unit_bytes u ++ flat us

abbrev IsFlat : Bytes → List ℕ → Type 0
IsFlat b us = (b ≡ flat us) × All (λ u. u < 0x10000) us

units-IsFlat : (b : Bytes) (us : List ℕ) → All IsByte b → units b ≡ some us → IsFlat b us
unfolding units
units-IsFlat [] us h e = subst (IsFlat []) (some-injective _ _ e) (refl, tt)
units-IsFlat (x ∷ []) us h e = cc
units-IsFlat (x ∷ (y ∷ b)) us (hx, (hy, hb)) e =
    let (vs, ev, eu) = map-eq-some (λ vs. (x + 256 * y) ∷ vs) (units b) e in
    let (p, q) = units-IsFlat b vs hb ev in
    subst (IsFlat (x ∷ (y ∷ b))) eu (ground (arith, p), (omega arith, q))

encode-cons :
    (c : ℕ) (s : Text) (d r : Bytes)
    → encode_char c ≡ some d
    → encode s ≡ some r
    → encode (c ∷ s) ≡ some (d ++ r)
unfolding encode
encode-cons c s d r hd hr = rw (encode, hd, hr)

encode_char_unit :
    (u : ℕ)
    → u < 0x10000
    → is_high u ≡ false
    → is_low u ≡ false
    → encode_char u ≡ some (unit_bytes u)
unfolding encode_char is_high is_low
encode_char_unit u hu hh hl = ground arith

encode_char_pair :
    (h l : ℕ)
    → is_high h ≡ true
    → is_low l ≡ true
    → encode_char (0x10000 + (h - 0xd800) * 1024 + (l - 0xdc00))
      ≡ some (unit_bytes h ++ unit_bytes l)
unfolding encode_char is_high is_low
encode_char_pair h l hh hl =
    let hi : (0xd800 ≤ h) × (h < 0xdc00) = (ground arith, ground arith) in
    let lo : (0xdc00 ≤ l) × (l < 0xe000) = (ground arith, ground arith) in ground arith

abbrev Pending : Option ℕ → Type 0
Pending none = Unit {0}
Pending (some h) = is_high h ≡ true

abbrev pending_bytes : Option ℕ → Bytes
pending_bytes none = []
pending_bytes (some h) = unit_bytes h

encode-join :
    (p : Option ℕ) (us : List ℕ) (s : Text)
    → Pending p
    → All (λ u. u < 0x10000) us
    → join_units p us ≡ some s
    → encode s ≡ some (pending_bytes p ++ flat us)
unfolding join_units
encode-join none [] s w a h =
    subst (λ t. encode t ≡ some []) (some-injective _ _ h) (unfold encode in refl)
encode-join (some k) [] s w a h = cc
encode-join none (u ∷ us) s w (hu, a) h = elim (Bool-cases (is_high u)) [
  | inl high ↦ encode-join (some u) us s high a (ground (arith, high))
  | inr plain ↦ elim (Bool-cases (is_low u)) [
    | inl low ↦ absurd (ground (arith, plain, low))
    | inr other ↦
        let (t, et, es) =
          map-eq-some (λ t. u ∷ t) (join_units none us) (ground (arith, plain, other)) in
        subst (λ t. encode t ≡ some (flat (u ∷ us))) es
          (encode-cons u t (unit_bytes u) (flat us) (encode_char_unit u hu plain other)
            (encode-join none us t tt a et))
  ]
]
encode-join (some k) (u ∷ us) s w (hu, a) h = elim (Bool-cases (is_low u)) [
  | inr other ↦ absurd (ground (arith, other))
  | inl low ↦
      let (t, et, es) =
        map-eq-some (λ t. (0x10000 + (k - 0xd800) * 1024 + (u - 0xdc00)) ∷ t) (join_units none us)
          (ground (arith, low)) in
      subst (λ t. encode t ≡ some (unit_bytes k ++ flat (u ∷ us))) es
        (encode-cons _ t (unit_bytes k ++ unit_bytes u) (flat us) (encode_char_pair k u w low)
          (encode-join none us t tt a et))
]

-- Bytes that decode are what their text encodes to: a batch that is not changed keeps its bytes.
pub encode-decode : (b : Bytes) (s : Text) → All IsByte b → decode b ≡ some s → encode s ≡ some b
unfolding decode
encode-decode b s h e = elim (Option-cases (units b)) [
  | inr none_u ↦ absurd (ground (arith, none_u))
  | inl (us, eu) ↦
      let (p, q) = units-IsFlat b us h eu in rw p (encode-join none us s tt q (ground (arith, eu)))
]
