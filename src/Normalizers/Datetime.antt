-- ===== src/Normalizers/Datetime.antt =====
-- `normalize_datetime`, with the part of `strptime` that its formats use.
use sqlum_ai.Common.{
  ℕ, ◌==◌, true, ◌&&◌, ◌||◌, Option, none, some, List, [], ◌∷◌, ◌++◌, map, length, leb, replicate,
  ◌-◌, if◌then◌else◌, ◌<|>◌,
}
use sqlum_ai.Common.Text.{
  Text, codes, strip, split_at_char, nonempty, lower_char, is_space, is_digit,
}
use sqlum_ai.Common.Regex.{Re, chr, alt, rep, cap, lit, word, ◌▹◌, spaces, match_re, group}
use sqlum_ai.Common.Dict.{get_or}
use sqlum_ai.Common.Integers.{ℤ, int_of}
use sqlum_ai.Common.Dates.{is_date}
use sqlum_ai.Common.Show.{show}

-- `[a-b]`
abbrev pub range : ℕ → ℕ → Re
range a b = chr (λ c. leb a c && leb c b)

abbrev pub digit : Re
digit = range b'0' b'9'

-- The directives of `strptime`, each a group of its own.
-- `%Y`
abbrev pub year : Re
year = cap 1 (digit ▹ digit ▹ digit ▹ digit)

-- `%m`: `1[0-2]|0[1-9]|[1-9]`
abbrev pub month : Re
month =
    cap 2 (alt (lit b'1' ▹ range b'0' b'2') (alt (lit b'0' ▹ range b'1' b'9') (range b'1' b'9')))

-- `%d`: `3[0-1]|[1-2]\d|0[1-9]|[1-9]| [1-9]`
abbrev pub day : Re
day = cap 3 (
    alt (lit b'3' ▹ range b'0' b'1') (
      alt (range b'1' b'2' ▹ digit)
        (alt (lit b'0' ▹ range b'1' b'9') (alt (range b'1' b'9') (lit b' ' ▹ range b'1' b'9')))))

-- `%H`: `2[0-3]|[0-1]\d|\d`
abbrev pub hour : Re
hour = cap 4 (alt (lit b'2' ▹ range b'0' b'3') (alt (range b'0' b'1' ▹ digit) digit))

-- `%M`: `[0-5]\d|\d`
abbrev pub minute : Re
minute = cap 5 (alt (range b'0' b'5' ▹ digit) digit)

-- `%S`: `6[0-1]|[0-5]\d|\d`
abbrev pub second : Re
second = cap 6 (alt (lit b'6' ▹ range b'0' b'1') (alt (range b'0' b'5' ▹ digit) digit))

-- `%f`: `[0-9]{1,6}`
abbrev pub microsecond : Re
microsecond = rep true 1 (some 6) is_digit

abbrev pub ymd : Re
ymd = year ▹ lit b'-' ▹ month ▹ lit b'-' ▹ day

abbrev pub dmy : Re
dmy = day ▹ lit b'-' ▹ month ▹ lit b'-' ▹ year

abbrev pub hm : Re
hm = hour ▹ lit b':' ▹ minute

abbrev pub hms : Re
hms = hm ▹ lit b':' ▹ second

-- The formats in the order in which they are tried. A blank of a format stands for blanks, and letters
-- match in either case.
abbrev pub candidates : List Re
candidates =
    (ymd ▹ word (codes "T") ▹ hms)
    ∷ (ymd ▹ spaces ▹ hms)
    ∷ (ymd ▹ spaces ▹ hm)
    ∷ (ymd ▹ word (codes "T") ▹ hm)
    ∷ (ymd ▹ word (codes "T") ▹ hms ▹ lit b'.' ▹ microsecond)
    ∷ (ymd ▹ spaces ▹ hms ▹ lit b'.' ▹ microsecond)
    ∷ (dmy ▹ spaces ▹ hm)
    ∷ (dmy ▹ spaces ▹ hms)
    ∷ []

-- The number that a group captured, 0 for a group that is not in the format.
unfoldable pub number : Text → ℕ
unfolding int_of
number s = elim (get_or (ℤ.pos 0) (int_of s)) [ ℤ.pos n ↦ n | ℤ.negsuc n ↦ 0 ]

-- A number of two digits at least.
unfoldable pub two_digits : ℕ → Text
unfolding show
two_digits n = replicate (2 - length (show n)) b'0' ++ show n

-- `strftime("%Y-%m-%dT%H:%M:%S")`; the C library does not pad a year
unfoldable pub written : ℕ → ℕ → ℕ → ℕ → ℕ → ℕ → Text
unfolding two_digits show
written y m d hh mm ss =
    show y
    ++ b'-' ∷ two_digits m
    ++ b'-' ∷ two_digits d
    ++ b'T' ∷ two_digits hh
    ++ b':' ∷ two_digits mm
    ++ b':' ∷ two_digits ss

-- `datetime.strptime(v, fmt)`, written; `none` is the ValueError of a text that does not match whole, of
-- a day that is none, and of second 60 or 61
unfoldable pub strptime : Text → Re → Option Text
unfolding match_re group is_space lower_char is_digit number is_date written
strptime v fmt = elim (match_re fmt v) [
  | none ↦ none
  | some m ↦
      let y = number (group m 1) in
      let mo = number (group m 2) in
      let d = number (group m 3) in
      let ss = number (group m 6) in
      if nonempty m.after
      then none
      else if is_date y mo d && leb ss 59
      then some (written y mo d (number (group m 4)) (number (group m 5)) ss)
      else none
]

-- `s.zfill(2)`, which puts the zeros behind a sign
unfoldable pub zfill_signed : Text → Text
zfill_signed [] = codes "00"
zfill_signed (c ∷ []) = if c == b'+' || c == b'-' then c ∷ b'0' ∷ [] else b'0' ∷ c ∷ []
zfill_signed (c ∷ (d ∷ s)) = c ∷ (d ∷ s)

-- The date part's month and day padded, where one of them has one digit; what is behind a second blank
-- falls away.
unfoldable pub padded : Text → Text
unfolding split_at_char zfill_signed
padded v = elim (split_at_char b' ' v) [
  | [] ↦ v
  | date_part ∷ behind ↦ elim (split_at_char b'-' date_part) [
    | y ∷ (m ∷ (d ∷ [])) ↦
        if length m == 1 || length d == 1
        then y
          ++ b'-' ∷ zfill_signed m
          ++ b'-' ∷ zfill_signed d
          ++ elim behind [ [] ↦ [] | p ∷ ps ↦ b' ' ∷ p ]
        else v
    | _ ↦ v
  ]
]

-- The first format that the text has.
unfoldable pub first_format : Text → List Re → Option Text
unfolding strptime
first_format v [] = none
first_format v (fmt ∷ fmts) = let later = first_format v fmts in strptime v fmt <|> later

unfoldable pub normalize_datetime : Text → Option (Text × Text)
unfolding strip padded first_format
normalize_datetime value =
    let v = padded (map (λ c. if c == b'/' then b'-' else c) (strip value)) in
    elim (first_format v candidates) [ none ↦ none | some s ↦ some (s, codes "datetime") ]
