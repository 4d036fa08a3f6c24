-- ===== src/Normalizers.antt =====
-- agents/normalizers.py: the normal form of a value, with its kind. `none` is `(None, None)`.
pub mod Laws
pub mod Numbers
pub mod Datetime
pub mod Kinds
use sqlum_ai.Common.{
  ℕ, ◌+◌, ◌-◌, ◌==◌, Bool, true, false, not, ◌&&◌, ◌||◌, Option, none, some, List, [], ◌∷◌, ◌++◌,
  all, keep, drop, length, replicate, leb, if◌then◌else◌, ◌<|>◌, is_some,
}
use sqlum_ai.Common.Text.{
  Text, codes, text_eq, nonempty, strip, lower, is_space, is_digit, is_alpha, starts_with,
}
use sqlum_ai.Common.Dict
use sqlum_ai.Common.Dict.{Dict}
use sqlum_ai.Normalizers.Numbers.{normalize_decimal, normalize_uuid}
use sqlum_ai.Normalizers.Datetime.{normalize_datetime}
use sqlum_ai.Common.Regex.{Re, chr, rep, cap, lit, end_of_text, ◌▹◌, match_re, group}

-- A normal form and its kind.
abbrev pub Normal : Type 0
Normal = Option (Text × Text)

-- `s.zfill(2)` of digits
unfoldable pub zfill2 : Text → Text
zfill2 s = replicate (2 - length s) b'0' ++ s

abbrev pub is_separator : ℕ → Bool
is_separator c = c == b'/' || c == b'-'

-- `^(\d{1,2})[/-](\d{1,2})[/-](\d{2,4})$`
abbrev pub written_date : Re
written_date =
    cap 1 (rep true 1 (some 2) is_digit)
    ▹ chr is_separator
    ▹ cap 2 (rep true 1 (some 2) is_digit)
    ▹ chr is_separator
    ▹ cap 3 (rep true 2 (some 4) is_digit)
    ▹ end_of_text

-- `^(\d{4})-(\d{2})-(\d{2})$`
abbrev pub iso_date : Re
iso_date =
    cap 1 (rep true 4 (some 4) is_digit)
    ▹ lit b'-'
    ▹ cap 2 (rep true 2 (some 2) is_digit)
    ▹ lit b'-'
    ▹ cap 3 (rep true 2 (some 2) is_digit)
    ▹ end_of_text

unfoldable pub normalize_date : Text → Normal
unfolding strip match_re group is_digit zfill2
normalize_date value =
    let v = strip value in
    elim (match_re written_date v) [
      | some m ↦
          let y = if length (group m 3) == 4 then group m 3 else codes "20" ++ group m 3 in
          some (y ++ b'-' ∷ (zfill2 (group m 2) ++ b'-' ∷ zfill2 (group m 1)), codes "date")
      | none ↦ if is_some (match_re iso_date v) then some (v, codes "date") else none
    ]

unfoldable pub not_space : ℕ → Bool
unfolding is_space
not_space c = not (is_space c)

-- `re.sub(r"\s+", "", s)`
unfoldable pub without_spaces : Text → Text
unfolding not_space
without_spaces s = keep not_space s

-- `s.replace("(0)", "")`
unfoldable pub drop_trunk : Text → Text
drop_trunk (c ∷ (d ∷ (e ∷ s))) =
    let cut = drop_trunk s in
    let rest = drop_trunk (d ∷ (e ∷ s)) in
    if c == b'(' && d == b'0' && e == b')' then cut else c ∷ rest
drop_trunk s = s

-- The prefix `00` is the plus sign, a leading 0 stands for Sweden.
unfoldable pub international : Text → Text
unfolding starts_with
international v = if starts_with v (codes "00") then b'+' ∷ drop 2 v else v

unfoldable pub swedish : Text → Text
unfolding starts_with
swedish v = if starts_with v (codes "0") then codes "+46" ++ drop 1 v else v

unfoldable pub normalize_phone_se : Text → Normal
unfolding without_spaces drop_trunk international swedish
normalize_phone_se value =
    let v = swedish (international (drop_trunk (without_spaces value))) in
    if starts_with v (codes "+46") then some (v, codes "phone") else none

-- `^[0-9]{5}$`
abbrev pub five_digits : Re
five_digits = rep true 5 (some 5) is_digit ▹ end_of_text

unfoldable pub normalize_postal : Text → Normal
unfolding without_spaces match_re is_digit
normalize_postal value =
    let v = without_spaces value in
    if is_some (match_re five_digits v) then some (v, codes "postal") else none

unfoldable pub mail_char : ℕ → Bool
unfolding is_space
mail_char c = not (c == b'@' || is_space c)

-- `^[^@\s]+@[^@\s]+\.[^@\s]+$`
abbrev pub address : Re
address =
    rep true 1 none mail_char
    ▹ lit b'@'
    ▹ rep true 1 none mail_char
    ▹ lit b'.'
    ▹ rep true 1 none mail_char
    ▹ end_of_text

unfoldable pub normalize_email : Text → Normal
unfolding strip match_re mail_char lower
normalize_email value =
    let v = strip value in
    if is_some (match_re address v) then some (lower v, codes "email") else none

-- `s.upper()` of letters below 256
unfoldable pub upper : Text → Text
upper [] = []
upper (c ∷ s) =
    let rest = upper s in
    if (leb 97 c && leb c 122) || (leb 224 c && leb c 246) || (leb 248 c && leb c 254)
    then (c - 32) ∷ rest
    else if c == 181
    then 924 ∷ rest
    else if c == 223
    then 83 ∷ (83 ∷ rest)
    else if c == 255
    then 376 ∷ rest
    else c ∷ rest

abbrev pub countries : Dict Text
countries =
    (codes "sweden", codes "SE")
    ∷ (codes "sverige", codes "SE")
    ∷ (codes "united states", codes "US")
    ∷ (codes "usa", codes "US")
    ∷ (codes "us", codes "US")
    ∷ (codes "united kingdom", codes "GB")
    ∷ (codes "uk", codes "GB")
    ∷ (codes "england", codes "GB")
    ∷ (codes "germany", codes "DE")
    ∷ (codes "deutschland", codes "DE")
    ∷ (codes "norway", codes "NO")
    ∷ (codes "norge", codes "NO")
    ∷ (codes "denmark", codes "DK")
    ∷ (codes "danmark", codes "DK")
    ∷ (codes "finland", codes "FI")
    ∷ (codes "suomi", codes "FI")
    ∷ []

unfoldable pub normalize_country_iso : Text → Normal
unfolding strip upper lower is_alpha Dict.get
normalize_country_iso value =
    let v = strip value in
    if length v == 2 && all is_alpha v
    then some (upper v, codes "country_iso")
    else elim (Dict.get (lower v) countries) [
      | none ↦ none
      | some c ↦ some (c, codes "country_iso")
    ]

-- `re.sub(r"\D+", "", s)`
unfoldable pub digits_of : Text → Text
unfolding is_digit
digits_of s = keep is_digit s

unfoldable pub normalize_orgnr_se : Text → Normal
unfolding digits_of starts_with
normalize_orgnr_se value =
    let digits = digits_of value in
    if length digits == 10
    then some (digits, codes "orgnr")
    else if length digits == 12 && starts_with digits (codes "16")
    then some (drop 2 digits, codes "orgnr")
    else none

-- `if normalized`: a normalizer whose normal form is empty is passed over.
unfoldable pub found : Normal → Normal
found none = none
found (some (v, kind)) = if nonempty v then some (v, kind) else none

-- The first normalizer that has a normal form for the value.
unfoldable pub suggest_normalizations : Text → Normal
unfolding found normalize_date normalize_datetime normalize_phone_se normalize_postal
    normalize_email normalize_decimal normalize_uuid normalize_country_iso normalize_orgnr_se
suggest_normalizations value =
    found (normalize_date value)
    <|> (found (normalize_datetime value)
        <|> (found (normalize_phone_se value)
            <|> (found (normalize_postal value)
                <|> (found (normalize_email value)
                    <|> (found (normalize_decimal value)
                        <|> (found (normalize_uuid value)
                            <|> (found (normalize_country_iso value)
                                <|> found (normalize_orgnr_se value))))))))
