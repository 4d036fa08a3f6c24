-- ===== src/Api/Dryrun.antt =====
-- `dryrun_json`: the day's decisions, counted for each rule and action.
pub mod Asked
pub mod Answered
use sqlum_ai.Common.{
  ℕ, ◌+◌, ◌≡◌, refl, inl, inr, ◌∙◌, Bool, not, ◌&&◌, Option, none, some, List, [], ◌∷◌, arith,
  if◌then◌else◌, Bool-cases,
}
use sqlum_ai.Common.Text.{Text, codes, text_eq, nonempty, lower, starts_with}
use sqlum_ai.Common.Dict
use sqlum_ai.Common.Dict.{Dict, get_or, get-put}
use sqlum_ai.Common.Table.{Table, cell_at, bump, cell_at-bump}
use sqlum_ai.Policy.Engine.{or_empty}
use sqlum_ai.Metrics.Decisions.{str, Decision, Log, natural, tail}

-- `d.get("ts", "")`, whose `startswith` is called; `none` is the AttributeError of what is no text
unfoldable pub ts_of : Decision → Option Text
unfolding Dict.get
ts_of d = elim (Dict.get (codes "ts") d) [
  | none ↦ some []
  | some v ↦ elim v [ str s ↦ some s | _ ↦ none ]
]

-- `d.get(key) or ""`, of a key under which the writers of the log put a text or null
unfoldable pub text_or_empty : Text → Decision → Text
text_or_empty key d = elim (Dict.get key d) [ none ↦ [] | some v ↦ elim v [ str s ↦ s | _ ↦ [] ] ]

-- `d.get("rule_id") or "(no_rule)"`
unfoldable pub rule_of : Decision → Text
unfolding text_or_empty
rule_of d =
    let id = text_or_empty (codes "rule_id") d in if nonempty id then id else codes "(no_rule)"

-- `(d.get("action") or "").lower()`
unfoldable pub action_of : Decision → Text
unfolding text_or_empty lower
action_of d = lower (text_or_empty (codes "action") d)

-- `wanted and value != wanted`
abbrev pub filtered_out : Option Text → Text → Bool
filtered_out wanted v = nonempty (or_empty wanted) && not (text_eq v (or_empty wanted))

-- Is the decision one of the day that the filters let through? `none` is the exception.
unfoldable pub is_counted : Option Text → Option Text → Text → Decision → Option Bool
unfolding ts_of rule_of action_of starts_with
is_counted rule action day d = elim (ts_of d) [
  | none ↦ none
  | some ts ↦ some (
      starts_with ts day
      && not (filtered_out rule (rule_of d))
      && not (filtered_out action (action_of d)))
]

unfoldable pub tally : Option Text → Option Text → Text → List Decision → Table → Option Table
unfolding is_counted bump
tally rule action day [] agg = some agg
tally rule action day (d ∷ ds) agg = elim (is_counted rule action day d) [
  | none ↦ none
  | some counted ↦
      tally rule action day ds (if counted then bump (rule_of d) (action_of d) agg else agg)
]

-- `none` is the exception, an answer of status 500
unfoldable pub dryrun_json : Option Text → Option Text → Text → Log → Option Table
unfolding tally tail
dryrun_json rule action day log = tally rule action day (tail (natural 10000) log) []
