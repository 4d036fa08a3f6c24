-- ===== src/Metrics/Decisions.antt =====
-- src/metrics/decisions.py: the log of decisions, a file of one JSON object on each line. The file is
-- its lines, and a line that is no JSON is `none`. The clock is the argument `now`.
pub mod Tail
use sqlum_ai.Common.{ℕ, suc, ◌-◌, Option, none, some, List, [], ◌∷◌, ◌++◌, length, drop}
use sqlum_ai.Common.Text.{Text, codes}
use sqlum_ai.Common.Dict
use sqlum_ai.Common.Dict.{Dict}
use sqlum_ai.Policy.Engine.{Number}

-- What a decision records under a key.
pub data Value : Type 0 where
  str : Text → Value
  int : ℕ → Value
  num : Number → Value
  null : Value

abbrev pub Decision : Type 0
Decision = Dict Value

-- `none`: the file is not there.
abbrev pub Log : Type 0
Log = Option (List (Option Decision))

abbrev pub lines : Log → List (Option Decision)
lines none = []
lines (some ls) = ls

-- `{**base, **decision}`
unfoldable pub merge : Decision → Decision → Decision
merge base [] = base
merge base ((k, v) ∷ d) = merge (Dict.put k v base) d

-- `append`
unfoldable pub append : Text → Decision → Log → Log
unfolding merge
append now decision log =
    some (lines log ++ some (merge ((codes "ts", str now) ∷ []) decision) ∷ [])

-- A Python `int`; `negative n` is -(n + 1).
pub data Limit : Type 0 where
  natural : ℕ → Limit
  negative : ℕ → Limit

-- The loop over the lines, which passes over those that do not parse.
unfoldable pub parsed : List (Option Decision) → List Decision
parsed [] = []
parsed (none ∷ ls) = parsed ls
parsed (some d ∷ ls) = d ∷ parsed ls

-- `lines[-limit:]`: `-0` is 0, so the slice of a limit of 0 starts at the front.
unfoldable pub last_lines : Limit → List (Option Decision) → List (Option Decision)
last_lines (natural ℕ.zero) ls = ls
last_lines (natural (suc n)) ls = drop (length ls - suc n) ls
last_lines (negative n) ls = drop (suc n) ls

unfoldable pub tail : Limit → Log → List Decision
unfolding parsed last_lines
tail limit none = []
tail limit (some ls) = parsed (last_lines limit ls)
