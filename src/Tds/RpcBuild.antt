-- ===== src/Tds/RpcBuild.antt =====
-- src/tds/rpc_build.py: `build_rpc_payload`, the payload of an RPC request, built afresh. `none` is the
-- exception that building it raises.
pub mod Values
pub mod Temporal
pub mod Wire
pub mod ReadBack
pub mod Builds
use sqlum_ai.Common.{
  ℕ, ltb, Bool, ◌||◌, Option, none, some, List, [], ◌∷◌, ◌++◌, take, keep, length, if◌then◌else◌,
}
use sqlum_ai.Common.Text.{Text, codes, text_eq, lower, starts_with}
use sqlum_ai.Common.Integers.{ℤ}
use sqlum_ai.Tds.Utf16.{Bytes}
use sqlum_ai.Tds.ToBytes.{le_bytes, unsigned_bytes}
use sqlum_ai.Tds.RpcBuild.Values.{
  prefixed, int_bytes, bit_bytes, decimal_bytes, uuid_bytes, binary_bytes, nvarchar_bytes,
}
use sqlum_ai.Tds.RpcBuild.Temporal.{
  Datetime, date_bytes, time_bytes, datetime2_bytes, datetimeoffset_bytes,
}

-- `_us_varchar`, and `_b_varchar`: the ASCII characters, at most 255, behind their number
unfoldable pub us_varchar : Text → Bytes
us_varchar s = let b = take 255 (keep (λ c. ltb c 128) s) in length b ∷ b

-- The branches for dates and times, and the one for each other type: NVARCHAR. `iso` is
-- `datetime.fromisoformat`.
unfoldable pub other_bytes : (Text → Option Datetime) → Text → Text → Option Bytes
unfolding date_bytes time_bytes datetime2_bytes datetimeoffset_bytes nvarchar_bytes text_eq
other_bytes iso t value =
    if text_eq t (codes "date")
    then date_bytes value
    else if text_eq t (codes "time")
    then time_bytes value
    else if text_eq t (codes "datetime2")
    then datetime2_bytes iso value
    else if text_eq t (codes "datetimeoffset")
    then datetimeoffset_bytes iso value
    else nvarchar_bytes value

-- The type, its description and the value.
unfoldable pub typed_bytes : (Text → Option Datetime) → Text → Text → Option Bytes
unfolding int_bytes bit_bytes decimal_bytes uuid_bytes binary_bytes other_bytes lower text_eq
typed_bytes iso typ value =
    let t = lower typ in
    if text_eq t (codes "int")
    then int_bytes value
    else if text_eq t (codes "bit")
    then some (bit_bytes value)
    else if text_eq t (codes "decimal") || text_eq t (codes "numeric")
    then decimal_bytes (text_eq t (codes "decimal")) value
    else if text_eq t (codes "uniqueidentifier") || text_eq t (codes "uuid")
    then some (uuid_bytes value)
    else if text_eq t (codes "varbinary") || text_eq t (codes "binary")
    then binary_bytes value
    else other_bytes iso t value

-- A parameter: its name, its value and its type.
abbrev pub Param : Type 0
Param = Text × Text × Text

-- `name if name.startswith("@") else ("@" + name)`
unfoldable pub at_name : Text → Text
unfolding starts_with
at_name name = if starts_with name (codes "@") then name else b'@' ∷ name

-- The name, the status, the user type and the flags.
unfoldable pub param_head : Text → Bytes
unfolding us_varchar at_name
param_head name = us_varchar (at_name name) ++ 0 ∷ 0 ∷ 0 ∷ 0 ∷ 0 ∷ 0 ∷ 0 ∷ []

unfoldable pub build_param : (Text → Option Datetime) → Param → Option Bytes
unfolding param_head typed_bytes
build_param iso (name, value, typ) = prefixed (param_head name) (typed_bytes iso typ value)

unfoldable pub build_params : (Text → Option Datetime) → List Param → Option Bytes
unfolding build_param
build_params iso [] = some []
build_params iso (p ∷ params) =
    let rest = build_params iso params in
    elim (build_param iso p) [ none ↦ none | some b ↦ prefixed b rest ]

unfoldable pub build_rpc_payload : (Text → Option Datetime) → Text → List Param → Option Bytes
unfolding us_varchar build_params
build_rpc_payload iso proc_name params =
    prefixed (us_varchar proc_name ++ 0 ∷ 0 ∷ []) (build_params iso params)
