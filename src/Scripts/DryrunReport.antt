-- ===== src/Scripts/DryrunReport.antt =====
-- scripts/generate_dryrun_report.py: the day's decisions counted, and the lines of the report.
pub mod Same
use sqlum_ai.Common.{
  ℕ, ◌+◌, ◌≤◌, ◌≡◌, refl, sym, ◌∙◌, ap, Bool, ◌&&◌, not, Option, none, some, List, [], ◌∷◌, ◌++◌,
  map, length, ltb, ◌==◌, arith, if◌then◌else◌, Bool-cases, inl, inr, take, drop,
}
use sqlum_ai.Common.Text.{Text, codes, text_eq, nonempty, lower, join, starts_with}
use sqlum_ai.Common.Dict
use sqlum_ai.Common.Dict.{Dict, get_or, get-empty}
use sqlum_ai.Common.Table.{Table, add_one, cell_at, bump, cell_at-bump}
use sqlum_ai.Common.Show.{show, most_common}
use sqlum_ai.Metrics.Decisions.{
  str, null, Value, Decision, Log, lines, natural, tail, parsed, last_lines,
}
use sqlum_ai.Api.Dryrun.{ts_of, text_or_empty, rule_of}

-- `str(d.get("action", "")).lower()` of an action that is a text or null
unfoldable pub printed_action : Decision → Text
unfolding lower
printed_action d = elim (Dict.get (codes "action") d) [
  | none ↦ []
  | some v ↦ elim v [ str s ↦ lower s | null ↦ codes "none" | _ ↦ [] ]
]

-- `d.get("sample") or d.get("before") or ""`
unfoldable pub decision_sample : Decision → Text
unfolding text_or_empty
decision_sample d =
    let s = text_or_empty (codes "sample") d in
    if nonempty s then s else text_or_empty (codes "before") d

pub record Summary : Type 0 where
  pub actions : Dict ℕ
  pub per_rule : Table
  pub samples : Dict (List Text)

-- `samples[rule]`, which puts an empty list where there is none, with one more where it is short
unfoldable pub keep_sample : Text → Text → Dict (List Text) → Dict (List Text)
unfolding Dict.put Dict.get
keep_sample rule sample samples =
    let kept = get_or [] (Dict.get rule samples) in
    if ltb (length kept) 3 then Dict.put rule (kept ++ sample ∷ []) samples else samples

-- One round of the loop of `main`.
unfoldable pub summarize : Decision → Summary → Summary
unfolding printed_action rule_of decision_sample add_one bump keep_sample
summarize d s = record {
  actions = add_one (printed_action d) s.actions;
  per_rule = bump (rule_of d) (printed_action d) s.per_rule;
  samples = keep_sample (rule_of d) (decision_sample d) s.samples;
}

-- The loop over `iter_decisions_for_date`, which passes over a time that is no text.
unfoldable pub summarize_day : Text → List Decision → Summary → Summary
unfolding summarize ts_of starts_with
summarize_day day [] s = s
summarize_day day (d ∷ ds) s =
    let next : Summary = elim (ts_of d) [
      | none ↦ s
      | some ts ↦ if starts_with ts day then summarize d s else s
    ] in
    summarize_day day ds next

abbrev pub new_summary : Summary
new_summary = record { actions = []; per_rule = []; samples = [] }

unfoldable pub day_summary : Text → Log → Summary
unfolding summarize_day parsed
day_summary day log = summarize_day day (parsed (lines log)) new_summary

-- `clean[:160]` of a sample, a newline of which is a space
abbrev pub clean_sample : Text → Text
clean_sample s = take 160 (map (λ c. if c == 10 then b' ' else c) s)

abbrev pub sample_lines : List Text → List Text
sample_lines [] = []
sample_lines (s ∷ ss) =
    (if nonempty s then (codes "  - sample: " ++ clean_sample s) ∷ [] else []) ++ sample_lines ss

-- the lines of a rule: its counts, the greatest first, and its samples
abbrev pub rule_lines : Dict (List Text) → Table → List Text
rule_lines samples [] = []
rule_lines samples ((rule, cnts) ∷ rest) =
    (codes "- "
      ++ (rule
          ++ (codes ": "
              ++ join (codes ", ") (map (λ kv. kv.0 ++ b':' ∷ show kv.1) (most_common cnts)))))
    ∷ (sample_lines (get_or [] (Dict.get rule samples)) ++ rule_lines samples rest)

-- The lines behind the title.
unfoldable pub summary_lines : Summary → List Text
unfolding most_common show join Dict.get
summary_lines s =
    codes "" ∷ codes "## Totals by Action" ∷ []
    ++ map (λ kv. codes "- " ++ (kv.0 ++ (codes ": " ++ show kv.1))) (most_common s.actions)
    ++ codes "" ∷ codes "## By Rule" ∷ []
    ++ rule_lines s.samples s.per_rule
