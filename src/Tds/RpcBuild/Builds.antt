-- ===== src/Tds/RpcBuild/Builds.antt =====
-- Where `build_rpc_payload` raises no exception.
use sqlum_ai.Common.{
  ℕ, zero, suc, ◌-◌, ◌*◌, ◌^◌, ◌<◌, ◌≤◌, ◌≡◌, refl, true, Option, none, some, List, [], ◌∷◌, ◌++◌,
  All, length, arith, Option-cases, inl, inr,
}
use sqlum_ai.Common.Text.{Text, codes, lower, split_at_char}
use sqlum_ai.Common.Dict.{get_or}
use sqlum_ai.Common.Integers.{ℤ}
use sqlum_ai.Common.Dates.{is_date, days_in_month, days_to_month, days_since_one}
use sqlum_ai.Tds.Utf16.{Bytes, encode_ignore}
use sqlum_ai.Tds.ToBytes.{le_bytes, unsigned_bytes, signed_bytes}
use sqlum_ai.Tds.RpcBuild.Values.{
  prefixed, int_value, int_bytes, bit_bytes, uuid_bytes, counted, nvarchar_bytes,
}
use sqlum_ai.Tds.RpcBuild.Temporal.{Datetime, days_of, three_numbers, date_value, date_bytes}
use sqlum_ai.Tds.RpcBuild.{
  us_varchar, typed_bytes, other_bytes, Param, param_head, build_param, build_params,
  build_rpc_payload,
}

abbrev pub Builds : Option Bytes → Type 0
Builds o = (b : Bytes) × (o ≡ some b)

prefixed-Builds : (f : Bytes) (o : Option Bytes) → Builds o → Builds (prefixed f o)
prefixed-Builds f o (b, e) = (f ++ b, rw e refl)

days_to_month-bound : (y m : ℕ) → days_to_month y m ≤ 31 * m
unfolding days_to_month days_in_month
days_to_month-bound y zero = omega arith
days_to_month-bound y (suc m) = ground (arith, days_to_month-bound y m)

days_since_one-bound : (y m d : ℕ) → is_date y m d ≡ true → days_since_one y m d < 256 ^ 3
unfolding is_date days_since_one days_in_month
days_since_one-bound y m d h = ground (arith, days_to_month-bound y (m - 1))

days_of-bound : (y m d : ℤ) (n : ℕ) → days_of y m d ≡ some n → n < 256 ^ 3
unfolding days_of
days_of-bound (ℤ.pos y) (ℤ.pos m) (ℤ.pos d) n h = ground (arith, days_since_one-bound y m d)
days_of-bound (ℤ.negsuc y) m d n h = cc
days_of-bound (ℤ.pos y) (ℤ.negsuc m) d n h = cc
days_of-bound (ℤ.pos y) (ℤ.pos m) (ℤ.negsuc d) n h = cc

get_or-bound : (o : Option ℕ) (k : ℕ) → 0 < k → ((n : ℕ) → o ≡ some n → n < k) → get_or 0 o < k
get_or-bound none k h f = h
get_or-bound (some n) k h f = f n refl

date_value-bound : (value : Text) → date_value value < 256 ^ 3
unfolding date_value
date_value-bound value = elim (Option-cases (three_numbers (split_at_char b'-' value))) [
  | inr e ↦ rw (date_value, e) (omega arith)
  | inl ((y, m, d), e) ↦
      rw (date_value, e)
        (get_or-bound (days_of y m d) (256 ^ 3) (omega arith) (days_of-bound y m d))
]

three_bytes : (n : ℕ) → n < 256 ^ 3 → Builds (unsigned_bytes 3 (ℤ.pos n))
unfolding unsigned_bytes
three_bytes n h = (le_bytes 3 n, ground arith)

-- Each text that is given as a DATE is encoded: a date's days fit into three bytes.
pub date_bytes-Builds : (value : Text) → Builds (date_bytes value)
unfolding date_bytes
date_bytes-Builds value =
    prefixed-Builds (0x28 ∷ 3 ∷ 3 ∷ []) (unsigned_bytes 3 (ℤ.pos (date_value value)))
      (three_bytes (date_value value) (date_value-bound value))

-- The integers of four bytes.
abbrev pub IsInt32 : ℤ → Type 0
IsInt32 (ℤ.pos n) = n < 2 ^ 31
IsInt32 (ℤ.negsuc n) = n < 2 ^ 31

-- A value and a type that the payload has room for.
pub data Fits (value t : Text) : Type 0 where
  int_fits : t ≡ codes "int" → IsInt32 (int_value value) → Fits value t
  bit_fits : t ≡ codes "bit" → Fits value t
  uuid_fits : t ≡ codes "uniqueidentifier" → Fits value t
  date_fits : t ≡ codes "date" → Fits value t
  nvarchar_fits : t ≡ codes "nvarchar" → length (encode_ignore value) < 65536 → Fits value t

abbrev pub ParamFits : Param → Type 0
ParamFits (name, value, typ) = Fits value (lower typ)

signed_bytes-Builds : (z : ℤ) → IsInt32 z → Builds (signed_bytes 4 z)
unfolding signed_bytes
signed_bytes-Builds (ℤ.pos n) h = (le_bytes 4 n, ground arith)
signed_bytes-Builds (ℤ.negsuc n) h = (le_bytes 4 (256 ^ 4 - suc n), ground arith)

counted-Builds : (content : Bytes) → length content < 65536 → Builds (counted content)
unfolding counted unsigned_bytes
counted-Builds content h = (le_bytes 2 (length content) ++ content, ground arith)

module _ (iso : Text → Option Datetime) where
  typed_bytes-Builds :
      (typ value : Text) → Fits value (lower typ) → Builds (typed_bytes iso typ value)
  unfolding typed_bytes other_bytes int_bytes nvarchar_bytes
  typed_bytes-Builds typ value (int_fits e h) =
      rw (typed_bytes, e)
        (prefixed-Builds (0x26 ∷ 4 ∷ 4 ∷ []) (signed_bytes 4 (int_value value))
          (signed_bytes-Builds (int_value value) h))
  typed_bytes-Builds typ value (bit_fits e) = rw (typed_bytes, e) (bit_bytes value, refl)
  typed_bytes-Builds typ value (uuid_fits e) = rw (typed_bytes, e) (uuid_bytes value, refl)
  typed_bytes-Builds typ value (date_fits e) =
      rw (typed_bytes, other_bytes, e) (date_bytes-Builds value)
  typed_bytes-Builds typ value (nvarchar_fits e h) =
      rw (typed_bytes, other_bytes, e)
        (prefixed-Builds (0xe7 ∷ 0x40 ∷ 0x1f ∷ 9 ∷ 4 ∷ 0 ∷ 0 ∷ 0 ∷ [])
          (counted (encode_ignore value)) (counted-Builds (encode_ignore value) h))

  build_params-Builds :
      (params : List Param) → All ParamFits params → Builds (build_params iso params)
  unfolding build_params build_param
  build_params-Builds [] h = ([], refl)
  build_params-Builds ((name, value, typ) ∷ params) (p, h) =
      let (b, e) =
        prefixed-Builds (param_head name) (typed_bytes iso typ value)
          (typed_bytes-Builds typ value p) in
      rw (build_params, build_param, e)
        (prefixed-Builds b (build_params iso params) (build_params-Builds params h))

  -- A payload is built, without an exception, where each INT is one of four bytes, each NVARCHAR takes
  -- less than 65536 bytes, and the other parameters are BIT, UNIQUEIDENTIFIER or DATE, whatever their
  -- values are.
  pub build_rpc_payload-Builds :
      (proc_name : Text) (params : List Param)
      → All ParamFits params
      → Builds (build_rpc_payload iso proc_name params)
  unfolding build_rpc_payload
  build_rpc_payload-Builds proc_name params h =
      prefixed-Builds (us_varchar proc_name ++ 0 ∷ 0 ∷ []) (build_params iso params)
        (build_params-Builds params h)
