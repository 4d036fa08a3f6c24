-- ===== src/Tds/RpcBuild/Temporal.antt =====
-- The branches of `build_rpc_payload` for dates and times. A value that is not read counts as 0; the
-- exception of a number that does not fit into its bytes is not caught.
use sqlum_ai.Common.{
  ℕ, ◌+◌, ◌*◌, ◌/◌, ◌==◌, Option, none, some, [], ◌∷◌, ◌++◌, take, List, if◌then◌else◌, replicate,
}
use sqlum_ai.Common.Text.{Text, codes, split_at_char, before_char}
use sqlum_ai.Common.Dict.{get_or}
use sqlum_ai.Common.Integers.{ℤ, int_of, ◌+ℤ◌, times}
use sqlum_ai.Common.Dates.{is_date, days_since_one}
use sqlum_ai.Tds.Utf16.{Bytes}
use sqlum_ai.Tds.ToBytes.{unsigned_bytes, signed_bytes}
use sqlum_ai.Tds.RpcBuild.Values.{prefixed}

-- What `datetime.fromisoformat` returns: the date, the time of day, and the offset in seconds,
-- rounded down, if there is one.
pub record Datetime : Type 0 where
  pub year : ℕ
  pub month : ℕ
  pub day : ℕ
  pub hour : ℕ
  pub minute : ℕ
  pub second : ℕ
  pub microsecond : ℕ
  pub utcoffset : Option ℤ

-- `(dt.date(y, m, d) - dt.date(1, 1, 1)).days`; `none` is the ValueError
unfoldable pub days_of : ℤ → ℤ → ℤ → Option ℕ
unfolding is_date days_since_one
days_of (ℤ.pos y) (ℤ.pos m) (ℤ.pos d) = if is_date y m d then some (days_since_one y m d) else none
days_of y m d = none

-- The first three parts of the value as numbers; `none` where there are fewer, or one is no number.
unfoldable pub three_numbers : List Text → Option (ℤ × ℤ × ℤ)
unfolding int_of
three_numbers (a ∷ (b ∷ (c ∷ rest))) = elim (int_of a) [
  | none ↦ none
  | some x ↦ elim (int_of b) [
    | none ↦ none
    | some y ↦ elim (int_of c) [ none ↦ none | some z ↦ some (x, y, z) ]
  ]
]
three_numbers parts = none

unfoldable pub date_value : Text → ℕ
unfolding three_numbers split_at_char days_of
date_value value = elim (three_numbers (split_at_char b'-' value)) [
  | none ↦ 0
  | some (y, m, d) ↦ get_or 0 (days_of y m d)
]

unfoldable pub date_bytes : Text → Option Bytes
unfolding date_value unsigned_bytes
date_bytes value = prefixed (0x28 ∷ 3 ∷ 3 ∷ []) (unsigned_bytes 3 (ℤ.pos (date_value value)))

-- `(frac + "0" * 7)[:7]`, where `frac` is what is behind the first dot, up to the next one
unfoldable pub fraction_digits : Text → Text
unfolding split_at_char
fraction_digits part = elim (split_at_char b'.' part) [
  | [] ↦ take 7 (b'0' ∷ replicate 7 b'0')
  | w ∷ [] ↦ take 7 (b'0' ∷ replicate 7 b'0')
  | w ∷ (f ∷ ws) ↦ take 7 (f ++ replicate 7 b'0')
]

-- `(hh * 3600 + mm * 60 + ss) * 10_000_000 + frac`
unfoldable pub ticks_of : ℤ → ℤ → ℤ → ℤ → ℤ
unfolding ◌+ℤ◌ times
ticks_of hh mm ss frac = times 10000000 (times 3600 hh +ℤ times 60 mm +ℤ ss) +ℤ frac

unfoldable pub clock_numbers : List Text → Option ℤ
unfolding three_numbers int_of before_char fraction_digits ticks_of
clock_numbers (a ∷ (b ∷ (c ∷ rest))) = elim (three_numbers (a ∷ b ∷ before_char b'.' c ∷ [])) [
  | none ↦ none
  | some (hh, mm, ss) ↦ elim (int_of (fraction_digits c)) [
    | none ↦ none
    | some frac ↦ some (ticks_of hh mm ss frac)
  ]
]
clock_numbers parts = none

unfoldable pub time_value : Text → ℤ
unfolding clock_numbers split_at_char
time_value value = get_or (ℤ.pos 0) (clock_numbers (split_at_char b':' value))

unfoldable pub time_bytes : Text → Option Bytes
unfolding time_value unsigned_bytes
time_bytes value = prefixed (0x29 ∷ 7 ∷ 5 ∷ []) (unsigned_bytes 5 (time_value value))

-- The ticks since midnight and the days.
unfoldable pub ticks : Datetime → ℕ
ticks d = (d.hour * 3600 + d.minute * 60 + d.second) * 10000000 + d.microsecond * 10

unfoldable pub days : Datetime → ℕ
unfolding days_since_one
days d = days_since_one d.year d.month d.day

abbrev pub midnight : Datetime
midnight = record {
  year = 1;
  month = 1;
  day = 1;
  hour = 0;
  minute = 0;
  second = 0;
  microsecond = 0;
  utcoffset = none;
}

unfoldable pub moment_bytes : Datetime → Option Bytes
unfolding ticks days unsigned_bytes
moment_bytes d = elim (unsigned_bytes 5 (ℤ.pos (ticks d))) [
  | none ↦ none
  | some t ↦ prefixed t (unsigned_bytes 3 (ℤ.pos (days d)))
]

-- `s.replace("Z", "+00:00")`
unfoldable pub zulu_replaced : Text → Text
zulu_replaced [] = []
zulu_replaced (c ∷ s) =
    let rest = zulu_replaced s in if c == b'Z' then codes "+00:00" ++ rest else c ∷ rest

unfoldable pub datetime2_bytes : (Text → Option Datetime) → Text → Option Bytes
unfolding zulu_replaced before_char moment_bytes
datetime2_bytes iso value =
    prefixed (0x2a ∷ 7 ∷ 8 ∷ [])
      (moment_bytes (get_or midnight (iso (before_char b'+' (zulu_replaced value)))))

-- `s[:-1] + "+00:00"` where the text ends in `Z`
unfoldable pub zulu_end : Text → Text
zulu_end [] = []
zulu_end (c ∷ []) = if c == b'Z' then codes "+00:00" else c ∷ []
zulu_end (c ∷ (d ∷ s)) = c ∷ zulu_end (d ∷ s)

-- `total_seconds() // 60`, and 0 without an offset
unfoldable pub offset_minutes : Option ℤ → ℤ
offset_minutes none = ℤ.pos 0
offset_minutes (some (ℤ.pos n)) = ℤ.pos (n / 60)
offset_minutes (some (ℤ.negsuc n)) = ℤ.negsuc (n / 60)

unfoldable pub datetimeoffset_value : Datetime → Option Bytes
unfolding moment_bytes offset_minutes signed_bytes
datetimeoffset_value d = elim (moment_bytes d) [
  | none ↦ none
  | some b ↦ prefixed b (signed_bytes 2 (offset_minutes d.utcoffset))
]

unfoldable pub datetimeoffset_bytes : (Text → Option Datetime) → Text → Option Bytes
unfolding zulu_end datetimeoffset_value
datetimeoffset_bytes iso value =
    prefixed (0x2b ∷ 7 ∷ 10 ∷ []) (datetimeoffset_value (get_or midnight (iso (zulu_end value))))
