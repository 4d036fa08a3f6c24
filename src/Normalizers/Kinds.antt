-- ===== src/Normalizers/Kinds.antt =====
-- The kinds of normal forms: what `suggest_normalizations` can answer.
use sqlum_ai.Common.{
  ◌≡◌, refl, inl, inr, true, none, some, List, [], map, ◌∷◌, arith, if◌then◌else◌, ◌<|>◌,
  Bool-cases, Option-cases, ◌&&◌, ◌==◌, length, all,
}
use sqlum_ai.Common.Text.{Text, codes, text_eq, nonempty, strip, lower, is_alpha}
use sqlum_ai.Common.Dict
use sqlum_ai.Common.Regex.{match_re}
use sqlum_ai.Policy.Loader.{one_of}
use sqlum_ai.Normalizers.Numbers.{normalize_decimal, normalize_uuid}
use sqlum_ai.Normalizers.Datetime.{normalize_datetime, padded, first_format, candidates}
use sqlum_ai.Normalizers.{
  Normal, normalize_date, written_date, normalize_phone_se, normalize_postal, normalize_email,
  normalize_country_iso, normalize_orgnr_se, found, suggest_normalizations, countries,
}

abbrev pub kinds : List Text
kinds =
    codes "date"
    ∷ codes "datetime"
    ∷ codes "phone"
    ∷ codes "postal"
    ∷ codes "email"
    ∷ codes "decimal"
    ∷ codes "uuid"
    ∷ codes "country_iso"
    ∷ codes "orgnr"
    ∷ []

-- The normal form, where there is one, is of this kind.
abbrev pub Of : Text → Normal → Type 0
Of k none = Unit {0}
Of k (some (v, kind)) = kind ≡ k

date-Of : (value : Text) → Of (codes "date") (normalize_date value)
unfolding normalize_date
date-Of value = elim (Option-cases (match_re written_date (strip value))) [
  | inl (m, e) ↦ rw (normalize_date, e) refl
  | inr e ↦ rw (normalize_date, e) (ground arith)
]

phone-Of : (value : Text) → Of (codes "phone") (normalize_phone_se value)
unfolding normalize_phone_se
phone-Of value = ground arith

postal-Of : (value : Text) → Of (codes "postal") (normalize_postal value)
unfolding normalize_postal
postal-Of value = ground arith

email-Of : (value : Text) → Of (codes "email") (normalize_email value)
unfolding normalize_email
email-Of value = ground arith

country-Of : (value : Text) → Of (codes "country_iso") (normalize_country_iso value)
unfolding normalize_country_iso
country-Of value = elim (Bool-cases (length (strip value) == 2 && all is_alpha (strip value))) [
  | inl e ↦ rw (normalize_country_iso, e) refl
  | inr e ↦ elim (Option-cases (Dict.get (lower (strip value)) countries)) [
    | inl (c, g) ↦ rw (normalize_country_iso, e, g) refl
    | inr g ↦ rw (normalize_country_iso, e, g) tt
  ]
]

orgnr-Of : (value : Text) → Of (codes "orgnr") (normalize_orgnr_se value)
unfolding normalize_orgnr_se
orgnr-Of value = ground arith

decimal-Of : (value : Text) → Of (codes "decimal") (normalize_decimal value)
unfolding normalize_decimal
decimal-Of value = ground arith

uuid-Of : (value : Text) → Of (codes "uuid") (normalize_uuid value)
unfolding normalize_uuid
uuid-Of value = ground arith

datetime-Of : (value : Text) → Of (codes "datetime") (normalize_datetime value)
unfolding normalize_datetime
datetime-Of value =
    let v = padded (map (λ c. if c == b'/' then b'-' else c) (strip value)) in
    elim (Option-cases (first_format v candidates)) [
      | inl (t, e) ↦ rw (normalize_datetime, e) refl
      | inr e ↦ rw (normalize_datetime, e) tt
    ]

-- The kind is one of those listed.
abbrev pub OfOne : Normal → Type 0
OfOne none = Unit {0}
OfOne (some (v, kind)) = one_of kind kinds ≡ true

Of-OfOne : (k : Text) (o : Normal) → Of k o → one_of k kinds ≡ true → OfOne (found o)
unfolding found
Of-OfOne k none h e = tt
Of-OfOne k (some (v, kind)) h e = elim (Bool-cases (nonempty v)) [
  | inr empty ↦ rw (found, empty) tt
  | inl full ↦ rw (found, full, h) e
]

either-OfOne : (a b : Normal) → OfOne a → OfOne b → OfOne (a <|> b)
either-OfOne none b ha hb = hb
either-OfOne (some x) b ha hb = ha

-- The kind of a normal form that `suggest_normalizations` finds is one of the nine of agents/normalizers.py.
pub suggest_normalizations-OfOne : (value : Text) → OfOne (suggest_normalizations value)
unfolding suggest_normalizations text_eq
suggest_normalizations-OfOne value =
    let date = Of-OfOne (codes "date") (normalize_date value) (date-Of value) refl in
    let datetime =
      Of-OfOne (codes "datetime") (normalize_datetime value) (datetime-Of value) refl in
    let phone = Of-OfOne (codes "phone") (normalize_phone_se value) (phone-Of value) refl in
    let postal = Of-OfOne (codes "postal") (normalize_postal value) (postal-Of value) refl in
    let email = Of-OfOne (codes "email") (normalize_email value) (email-Of value) refl in
    let decimal = Of-OfOne (codes "decimal") (normalize_decimal value) (decimal-Of value) refl in
    let uuid = Of-OfOne (codes "uuid") (normalize_uuid value) (uuid-Of value) refl in
    let country =
      Of-OfOne (codes "country_iso") (normalize_country_iso value) (country-Of value) refl in
    let orgnr = Of-OfOne (codes "orgnr") (normalize_orgnr_se value) (orgnr-Of value) refl in
    either-OfOne (found (normalize_date value)) _ date (
      either-OfOne (found (normalize_datetime value)) _ datetime (
        either-OfOne (found (normalize_phone_se value)) _ phone (
          either-OfOne (found (normalize_postal value)) _ postal (
            either-OfOne (found (normalize_email value)) _ email (
              either-OfOne (found (normalize_decimal value)) _ decimal (
                either-OfOne (found (normalize_uuid value)) _ uuid
                  (either-OfOne (found (normalize_country_iso value)) _ country orgnr)))))))
