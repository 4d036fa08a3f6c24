-- ===== src/Api/Pages.antt =====
-- The tables of the pages `metrics_html`, `dryrun_html` and `rules_ui`; the markup around them is left
-- out. Values are put between the tags as they are. The keys of a decision that are shown hold texts
-- or null.
pub mod Agree
use sqlum_ai.Common.{ℕ, Option, none, some, List, [], ◌∷◌, ◌++◌, map, take, concat}
use sqlum_ai.Common.Text.{Text, codes, join}
use sqlum_ai.Common.Dict
use sqlum_ai.Common.Dict.{Dict}
use sqlum_ai.Common.Show.{show}
use sqlum_ai.Common.Table.{Table}
use sqlum_ai.Metrics.Store.{File, get_all}
use sqlum_ai.Metrics.Decisions.{str, null, Decision, Log, Limit, natural, tail}
use sqlum_ai.Policy.Engine.{or_empty}
use sqlum_ai.Api.Dryrun.{text_or_empty, tally}
use sqlum_ai.Api.Store.{ApiRule, State, list_rules}

-- `{d.get(key, '')}`
unfoldable pub shown : Text → Decision → Text
shown key d = elim (Dict.get key d) [
  | none ↦ []
  | some v ↦ elim v [ str s ↦ s | null ↦ codes "None" | _ ↦ [] ]
]

-- `<tr>` around the cells, each in a `<td>`
abbrev pub row : List Text → Text
row cells =
    codes "<tr>" ++ concat (map (λ c. codes "<td>" ++ c ++ codes "</td>") cells) ++ codes "</tr>"

unfoldable pub decision_row : Decision → Text
unfolding shown text_or_empty
decision_row d = row (
    shown (codes "ts") d
    ∷ shown (codes "action") d
    ∷ shown (codes "rule_id") d
    ∷ take 120 (text_or_empty (codes "reason") d)
    ∷ [])

-- The items of the counters, and the rows of the last decisions.
unfoldable pub metrics_html : Limit → File → Log → Text × Text
unfolding decision_row get_all tail show
metrics_html limit metrics log = (
  concat (
      map (λ kv. codes "<li><b>" ++ kv.0 ++ codes "</b>: " ++ show kv.1 ++ codes "</li>")
        (get_all metrics)),
  concat (map decision_row (tail limit log)),
)

-- The counts of `dryrun_html`, of the last 5000 lines.
unfoldable pub dryrun_table : Option Text → Option Text → Text → Log → Option Table
unfolding tally tail
dryrun_table rule action day log = tally rule action day (tail (natural 5000) log) []

abbrev pub counts_row : Text × Dict ℕ → Text
counts_row (rid, acts) =
    row (rid ∷ join (codes ", ") (map (λ kv. kv.0 ++ b':' ∷ show kv.1) acts) ∷ [])

-- The values of the three inputs of the form, and the rows; `none` is the exception.
unfoldable pub dryrun_html : Option Text → Option Text → Text → Log → Option (List Text × Text)
unfolding dryrun_table join show
dryrun_html rule action day log = elim (dryrun_table rule action day log) [
  | none ↦ none
  | some agg ↦ some (or_empty rule ∷ or_empty action ∷ day ∷ [], concat (map counts_row agg))
]

unfoldable pub rule_row : ApiRule → Text
rule_row r = row (r.id ∷ r.target ∷ r.selector ∷ r.action ∷ r.reason ∷ [])

unfoldable pub rules_ui : State → Text
unfolding rule_row list_rules
rules_ui s = concat (map rule_row (list_rules s))
