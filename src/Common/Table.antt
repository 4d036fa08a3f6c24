-- ===== src/Common/Table.antt =====
-- Python's `Counter`, and a `defaultdict` of them: numbers under a key, and under two.
use Prim.Native.Nat.{ℕ, ◌+◌}
use mathlib.Core.Path.{◌≡◌}
use mathlib.Core.Logic.{inl, inr}
use mathlib.Core.Bool.{◌&&◌}
use mathlib.Core.List.{[]}
use native.Mathlib.Omega.{arith}
use sqlum_ai.Common.Tests.{if◌then◌else◌, Bool-cases}
use sqlum_ai.Common.Text.{Text, text_eq}
use sqlum_ai.Common.Text.Laws.{text_eq_iff}
use sqlum_ai.Common.Dict
use sqlum_ai.Common.Dict.{Dict, get_or, get-put}

-- `c[k]`, 0 where it is not there
abbrev pub count_at : Text → Dict ℕ → ℕ
count_at k c = get_or 0 (Dict.get k c)

-- `c[k] += 1`
unfoldable pub add_one : Text → Dict ℕ → Dict ℕ
add_one k c = Dict.put k (count_at k c + 1) c

pub count_at-add_one :
    (k j : Text) (c : Dict ℕ)
    → count_at j (add_one k c) ≡ count_at j c + (if text_eq k j then 1 else 0)
unfolding add_one
count_at-add_one k j c = rw get-put (ground (arith, text_eq_iff k j))

abbrev pub Table : Type 0
Table = Dict (Dict ℕ)

-- `agg[rid][act]`, 0 where it is not there
abbrev pub cell_at : Text → Text → Table → ℕ
cell_at rid act agg = get_or 0 (Dict.get act (get_or [] (Dict.get rid agg)))

-- `agg.setdefault(rid, {}).setdefault(act, 0)` and `agg[rid][act] += 1`
unfoldable pub bump : Text → Text → Table → Table
bump rid act agg =
    Dict.put rid (Dict.put act (cell_at rid act agg + 1) (get_or [] (Dict.get rid agg))) agg

pub cell_at-bump :
    (rid act r a : Text) (agg : Table)
    → cell_at rid act (bump r a agg)
      ≡ cell_at rid act agg + (if text_eq r rid && text_eq a act then 1 else 0)
unfolding bump
cell_at-bump rid act r a agg = elim (Bool-cases (text_eq r rid)) [
  | inr other ↦ rw (get-put, other) (omega arith)
  | inl same ↦
      rw (get-put, same)
        (rw (get-put, ← (text_eq_iff r rid).0 same) (ground (arith, text_eq_iff a act)))
]
