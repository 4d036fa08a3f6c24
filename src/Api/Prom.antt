-- ===== src/Api/Prom.antt =====
-- `metrics_prom` where prometheus_client is not installed: the counters in the text format.
pub mod Labels
use sqlum_ai.Common.{ℕ, ◌==◌, Bool, Option, none, some, List, [], ◌∷◌, ◌++◌, map, if◌then◌else◌}
use sqlum_ai.Common.Text.{Text, codes, starts_with}
use sqlum_ai.Common.Show.{show}
use sqlum_ai.Metrics.Store.{File, Counters, get_all}

-- `s.split(":", 1)`, where there is a `:`
unfoldable pub split_once : Text → Option (Text × Text)
split_once [] = none
split_once (c ∷ s) =
    let rest = split_once s in
    if c == b':' then some ([], s) else elim rest [ none ↦ none | some lr ↦ some (c ∷ lr.0, lr.1) ]

-- The labels of a counter: the rule and the action, where `k.split(":", 2)` has three parts.
unfoldable pub rule_labels : Text → Option (Text × Text)
unfolding starts_with split_once
rule_labels k =
    if starts_with k (codes "rule:")
    then elim (split_once k) [ none ↦ none | some first ↦ split_once first.1 ]
    else none

abbrev pub rule_line : Text → Text → ℕ → Text
rule_line rid act v =
    codes "sqlumai_metric{key=\"rule\",rule=\""
    ++ (rid ++ (codes "\",action=\"" ++ (act ++ (codes "\"} " ++ show v))))

abbrev pub plain_line : Text → ℕ → Text
plain_line k v = codes "sqlumai_metric{key=\"" ++ (k ++ (codes "\"} " ++ show v))

-- The line of a counter.
unfoldable pub metric_line : Text × ℕ → Text
unfolding rule_labels show
metric_line (k, v) = elim (rule_labels k) [
  | none ↦ plain_line k v
  | some labels ↦ rule_line labels.0 labels.1 v
]

-- The body of the answer: each line with a newline behind it.
unfoldable pub metrics_prom : File → List Text
unfolding metric_line get_all
metrics_prom f =
    codes "# TYPE sqlumai_metric counter"
    ∷ codes "# HELP sqlumai_metric SQLumAI counters (by key)"
    ∷ map metric_line (get_all f)
