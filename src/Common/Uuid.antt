-- ===== src/Common/Uuid.antt =====
-- Python's `uuid.UUID` of a text.
use Prim.Native.Nat.{ℕ, ◌-◌, ◌^◌}
use mathlib.Core.Bool.{Bool, not, ◌||◌}
use mathlib.Core.Option.{Option, none, some}
use mathlib.Core.List.{[], ◌∷◌}
use sqlum_ai.Common.Tests.{ltb, leb, ◌==◌, if◌then◌else◌}
use sqlum_ai.Common.Lists.{length, keep}
use sqlum_ai.Common.Text.{Text, codes, starts_with, strip_by}
use sqlum_ai.Common.Integers.{ℤ, hex_of}

-- `s.replace(old, "")` of a text that is not empty, `skip` characters of it being taken away already
unfoldable pub remove_all : Text → ℕ → Text → Text
unfolding starts_with
remove_all old skip [] = []
remove_all old skip (c ∷ s) =
    let cut = remove_all old (length old - 1) s in
    let passed = remove_all old (skip - 1) s in
    let rest = remove_all old 0 s in
    if leb 1 skip then passed else if starts_with (c ∷ s) old then cut else c ∷ rest

abbrev is_brace : ℕ → Bool
is_brace c = c == b'{' || c == b'}'

-- `hex.replace("urn:", "").replace("uuid:", "").strip("{}").replace("-", "")`
unfoldable pub uuid_digits : Text → Text
unfolding remove_all strip_by
uuid_digits value =
    keep (λ c. not (c == b'-'))
      (strip_by is_brace (remove_all (codes "uuid:") 0 (remove_all (codes "urn:") 0 value)))

-- `uuid.UUID(value).int`; `none` is the ValueError
unfoldable pub uuid_of : Text → Option ℕ
unfolding uuid_digits hex_of
uuid_of value =
    if length (uuid_digits value) == 32
    then elim (hex_of (uuid_digits value)) [
      | none ↦ none
      | some (ℤ.pos n) ↦ if ltb n (2 ^ 128) then some n else none
      | some (ℤ.negsuc n) ↦ none
    ]
    else none
