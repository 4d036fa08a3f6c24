-- ===== src/Scripts/Insights.antt =====
-- scripts/llm_insights.py: the day's decisions counted for three actions, and the prompt that they and the
-- profiles make.
pub mod Counted
use sqlum_ai.Common.{
  ℕ, ◌+◌, Bool, ◌||◌, Option, none, some, List, [], ◌∷◌, ◌++◌, map, take, is_some, if◌then◌else◌,
}
use sqlum_ai.Common.Text.{Text, codes, text_eq, join, starts_with}
use sqlum_ai.Common.Dict
use sqlum_ai.Common.Dict.{Dict, get_or}
use sqlum_ai.Common.Table.{Table, add_one}
use sqlum_ai.Common.Show.{show}
use sqlum_ai.Metrics.Decisions.{Decision, Log, lines, parsed}
use sqlum_ai.Api.Dryrun.{ts_of, rule_of, action_of}
use sqlum_ai.Scripts.Profiles.{Profile, Profiles}
use sqlum_ai.Scripts.DailyReport.{total}

-- The decisions of `load_decisions_for_date`, which passes over a time that is no text.
unfoldable pub decisions_for : Text → List Decision → List Decision
unfolding ts_of starts_with
decisions_for date [] = []
decisions_for date (d ∷ ds) =
    let rest = decisions_for date ds in
    elim (ts_of d) [ none ↦ rest | some ts ↦ if starts_with ts date then d ∷ rest else rest ]

unfoldable pub load_decisions_for_date : Text → Log → List Decision
unfolding decisions_for parsed
load_decisions_for_date date log = decisions_for date (parsed (lines log))

abbrev pub no_counts : Dict ℕ
no_counts =
    (codes "block", 0) ∷ (codes "autocorrect", 0) ∷ (codes "rpc_autocorrect_inplace", 0) ∷ []

-- `by_rule.setdefault(rid, {...})`, then `by_rule[rid][act] += 1` where the key is there
unfoldable pub count_action : Text → Text → Table → Table
unfolding Dict.get Dict.put add_one text_eq
count_action rid act by_rule =
    let counts = get_or no_counts (Dict.get rid by_rule) in
    Dict.put rid (if is_some (Dict.get act counts) then add_one act counts else counts) by_rule

unfoldable pub count_actions : List Decision → Table → Table
unfolding count_action rule_of action_of
count_actions [] by_rule = by_rule
count_actions (d ∷ ds) by_rule = count_actions ds (count_action (rule_of d) (action_of d) by_rule)

-- A dict of counts as Python prints it.
abbrev pub dict_text : Dict ℕ → Text
dict_text d =
    codes "{"
    ++ join (codes ", ") (map (λ kn. b'\'' ∷ kn.0 ++ codes "': " ++ show kn.1) d)
    ++ codes "}"

abbrev pub profile_line : Text × Profile → Text
profile_line (k, v) =
    codes "- "
    ++ k
    ++ codes ": count="
    ++ show v.occurs
    ++ codes " nulls="
    ++ show v.nulls
    ++ codes " sugg="
    ++ show (total v.suggestions)

-- The lines of the prompt.
unfoldable pub prompt_lines : Text → Log → Profiles → List Text
unfolding count_actions load_decisions_for_date show join total
prompt_lines date log profiles =
    codes
        "You are a data quality lead. Using summaries below, produce 5-8 actionable insights with severity, impacted fields, and next steps."
      ∷ codes "Context:"
      ∷ (codes "Decisions by rule (today " ++ date ++ codes "):")
      ∷ map (λ rc. codes "- " ++ rc.0 ++ codes ": " ++ dict_text rc.1)
          (count_actions (load_decisions_for_date date log) [])
    ++ codes "Top profiles:" ∷ map profile_line (take 30 profiles)
