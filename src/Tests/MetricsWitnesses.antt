-- ===== src/Tests/MetricsWitnesses.antt =====
-- The theorems on src/metrics at concrete counters and logs.
use mathlib.Core.List.{Permᴰ}
use sqlum_ai.Common.{◌+◌, ◌≡◌, refl, none, some, [], ◌∷◌, if◌then◌else◌, ℕ, List}
use sqlum_ai.Common.Text.{Text, codes, text_eq}
use sqlum_ai.Common.Dict
use sqlum_ai.Common.Dict.{get_or}
use sqlum_ai.Metrics.Store.{File, stored, read, inc_rule_action, get_rule_counters}
use sqlum_ai.Metrics.Store.Counters.{IsDict, get_rule_counters-inc_rule_action}
use sqlum_ai.Metrics.Store.Bag.{view, inc_all, added, inc_all-Perm}
use sqlum_ai.Common.Table.{count_at}
use sqlum_ai.Metrics.Decisions.{Decision, Log, str, lines, natural, parsed, tail}
use sqlum_ai.Metrics.Decisions.Tail.{tail_zero}

abbrev two_counters : File
two_counters = stored ((codes "blocks", 2) ∷ (codes "rule:a:block", 5) ∷ [])

two_counters-IsDict : IsDict two_counters
unfolding Dict.get read text_eq
two_counters-IsDict = (refl, (refl, tt))

get_rule_counters-inc_rule_action_example :
    get_or 0 (
      Dict.get (codes "block") (
        get_rule_counters (codes "a") (inc_rule_action (codes "a") (codes "block") 1 two_counters)))
    ≡ get_or 0 (Dict.get (codes "block") (get_rule_counters (codes "a") two_counters))
      + (if text_eq (codes "block") (codes "block") then 1 else 0)
get_rule_counters-inc_rule_action_example =
    get_rule_counters-inc_rule_action (codes "a") (codes "block") (codes "block") 1 two_counters
      two_counters-IsDict

abbrev blocked : Decision
blocked = (codes "action", str (codes "block")) ∷ []

abbrev three_lines : Log
three_lines = some (some blocked ∷ none ∷ some [] ∷ [])

tail_zero_example : tail (natural 0) three_lines ≡ parsed (lines three_lines)
tail_zero_example = tail_zero three_lines

abbrev counted_calls : List (Text × ℕ)
counted_calls = (codes "blocks", 1) ∷ (codes "allowed", 2) ∷ []

abbrev turned_calls : List (Text × ℕ)
turned_calls = (codes "allowed", 2) ∷ (codes "blocks", 1) ∷ []

inc_all-Perm_example :
    ((key : Text)
      → count_at key (read (inc_all counted_calls two_counters))
        ≡ count_at key (read two_counters) + added key counted_calls)
    × (view (inc_all counted_calls two_counters) ≡ view (inc_all turned_calls two_counters))
inc_all-Perm_example = inc_all-Perm counted_calls turned_calls two_counters (Permᴰ.swap refl refl)
