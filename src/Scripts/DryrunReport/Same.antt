-- ===== src/Scripts/DryrunReport/Same.antt =====
-- The report of the day against the API's `dryrun_json`.
use sqlum_ai.Common.{
  some-injective, ◌+◌, ◌-◌, ◌≤◌, ◌≡◌, refl, sym, ◌∙◌, ap, ◌&&◌, none, some, List, [], ◌∷◌, length,
  arith, if◌then◌else◌, Bool-cases, Option-cases, inl, inr, drop, All,
}
use sqlum_ai.Common.Text.{Text, codes, text_eq, lower, starts_with}
use sqlum_ai.Common.Dict
use sqlum_ai.Common.Dict.{get_or, get-empty}
use sqlum_ai.Common.Table.{Table, cell_at, bump, cell_at-bump}
use sqlum_ai.Metrics.Decisions.{str, Value, Decision, Log, lines, natural, tail, parsed, last_lines}
use sqlum_ai.Api.Dryrun.{ts_of, text_or_empty, rule_of, action_of, is_counted, tally, dryrun_json}
use sqlum_ai.Scripts.DryrunReport.{
  printed_action, Summary, summarize, summarize_day, new_summary, day_summary,
}

-- The action of a decision, where it has one, is a text.
abbrev pub HasTextAction : Decision → Type 0
HasTextAction d = (v : Value) → Dict.get (codes "action") d ≡ some v → (s : Text) × (v ≡ str s)

same_action : (d : Decision) → HasTextAction d → printed_action d ≡ action_of d
unfolding printed_action action_of text_or_empty
same_action d h = elim (Option-cases (Dict.get (codes "action") d)) [
  | inr e ↦ rw (printed_action, action_of, text_or_empty, e) (unfold lower in refl)
  | inl (v, e) ↦ let (s, es) = h v e in rw (printed_action, action_of, text_or_empty, e, es) refl
]

cell_at-summarize :
    (rid act : Text) (d : Decision) (s : Summary)
    → HasTextAction d
    → cell_at rid act (summarize d s).per_rule
      ≡ cell_at rid act s.per_rule
        + (if text_eq (rule_of d) rid && text_eq (action_of d) act then 1 else 0)
unfolding summarize
cell_at-summarize rid act d s h =
    rw (← same_action d h) (cell_at-bump rid act (rule_of d) (printed_action d) s.per_rule)

-- What the report has more than before is what the table has more than before.
cell_at-summarize_day :
    (day rid act : Text) (ds : List Decision) (s : Summary) (agg agg' : Table)
    → All HasTextAction ds
    → tally none none day ds agg ≡ some agg'
    → cell_at rid act (summarize_day day ds s).per_rule + cell_at rid act agg
      ≡ cell_at rid act s.per_rule + cell_at rid act agg'
unfolding summarize_day tally is_counted
cell_at-summarize_day day rid act [] s agg agg' h e =
    ap (λ t. cell_at rid act s.per_rule + cell_at rid act t) (some-injective _ _ e)
cell_at-summarize_day day rid act (d ∷ ds) s agg agg' (hd, hs) e = elim (Option-cases (ts_of d)) [
  | inr no_ts ↦ absurd (cc (rw (tally, is_counted, no_ts) at e))
  | inl (ts, timed) ↦ elim (Bool-cases (starts_with ts day)) [
    | inr other ↦
        rw (summarize_day, timed, other)
          (cell_at-summarize_day day rid act ds s agg agg' hs
            (rw (tally, is_counted, timed, other) at e))
    | inl today ↦
        rw (summarize_day, timed, today)
          (omega (
            arith,
            cell_at-summarize_day day rid act ds (summarize d s)
                (bump (rule_of d) (action_of d) agg) agg' hs
                (rw (tally, is_counted, timed, today) at e),
            cell_at-summarize rid act d s hd,
            cell_at-bump rid act (rule_of d) (action_of d) agg,
          ))
  ]
]

whole_tail :
    (log : Log) → length (lines log) ≤ 10000 → tail (natural 10000) log ≡ parsed (lines log)
unfolding tail last_lines
whole_tail none h = unfold parsed in refl
whole_tail (some ls) h =
    let fits : length ls - 10000 ≡ 0 = omega arith in ap (λ n. parsed (drop n ls)) fits

-- Where `dryrun_json`, asked for a day without filters, answers at all, and the log has at most 10000 lines
-- whose actions are texts: the report of the day counts for each rule and action what the answer counts.
pub day_summary-dryrun_json :
    (day rid act : Text) (log : Log) (agg : Table)
    → length (lines log) ≤ 10000
    → All HasTextAction (parsed (lines log))
    → dryrun_json none none day log ≡ some agg
    → cell_at rid act (day_summary day log).per_rule ≡ cell_at rid act agg
unfolding day_summary dryrun_json
day_summary-dryrun_json day rid act log agg short texts e =
    let same =
      cell_at-summarize_day day rid act (parsed (lines log)) new_summary [] agg texts
        (ap (λ ds. tally none none day ds []) (sym (whole_tail log short)) ∙ e) in
    omega (arith, same, nothing_yet)
  where
    nothing_yet : cell_at rid act [] ≡ 0
    nothing_yet = unfold Dict.get in refl
