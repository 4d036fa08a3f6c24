-- ===== src/Scripts/Replay.antt =====
-- scripts/replay_dryrun.py: the decisions on recorded events, counted, and the lines of the report. An
-- event's values are texts or null.
use sqlum_ai.Common.{
  ℕ, ◌+◌, ◌≡◌, ◌∙◌, ap, ◌&&◌, Option, none, some, List, [], ◌∷◌, ◌++◌, map, length, ltb, arith,
  if◌then◌else◌,
}
use sqlum_ai.Common.Text.{Text, codes, text_eq, nonempty, lower, join}
use sqlum_ai.Common.Dict
use sqlum_ai.Common.Dict.{Dict, get_or, get-put, get-empty}
use sqlum_ai.Common.Table.{Table, add_one, cell_at, bump, cell_at-bump}
use sqlum_ai.Common.Show.{show, by_key}
use sqlum_ai.Metrics.Store.{File, inc, inc_rule_action}
use sqlum_ai.Policy.Engine.{Event, PolicyEngine, PolicyDecision, decide, or_empty}

-- The counters, up to three samples for each rule, and the metrics file.
pub record Tally : Type 0 where
  pub actions : Dict ℕ
  pub per_rule : Table
  pub samples : Dict (List Text)
  pub metrics : File

-- `(dec.action or "").lower()`
unfoldable pub action_of : PolicyDecision → Text
unfolding lower
action_of dec = lower dec.action

-- `dec.rule_id or "(no_rule)"`
unfoldable pub rule_of : PolicyDecision → Text
rule_of dec = let id = or_empty dec.rule_id in if nonempty id then id else codes "(no_rule)"

-- `action or "decided"`
abbrev pub metric_of : Text → Text
metric_of action = if nonempty action then action else codes "decided"

-- `e.get("sql_text") or e.get("value") or ""`
unfoldable pub sample_of : Event → Text
sample_of e = let sql = or_empty e.sql_text in if nonempty sql then sql else or_empty e.value

-- One more sample where there are less than three.
unfoldable pub add_sample : Text → Text → Dict (List Text) → Dict (List Text)
unfolding Dict.put Dict.get
add_sample rid sample samples =
    let kept = get_or [] (Dict.get rid samples) in
    if ltb (length kept) 3 then Dict.put rid (kept ++ sample ∷ []) samples else samples

-- The metrics of one decision.
unfoldable pub count_decision : PolicyDecision → File → File
unfolding inc inc_rule_action action_of
count_decision dec f =
    let metric = metric_of (action_of dec) in
    let id = or_empty dec.rule_id in
    let counted = inc metric 1 f in
    if nonempty id then inc_rule_action id metric 1 counted else counted

-- One round of the loop of `simulate`.
unfoldable pub replay_event : PolicyEngine → Event → Tally → Tally
unfolding decide action_of rule_of sample_of add_one bump add_sample count_decision
replay_event pe e t =
    let dec = decide pe e in
    record {
      actions = add_one (action_of dec) t.actions;
      per_rule = bump (rule_of dec) (action_of dec) t.per_rule;
      samples = add_sample (rule_of dec) (sample_of e) t.samples;
      metrics = count_decision dec t.metrics;
    }

-- The loop over the lines; a line that is no JSON is passed over.
unfoldable pub replay_lines : PolicyEngine → List (Option Event) → Tally → Tally
unfolding replay_event
replay_lines pe [] t = t
replay_lines pe (none ∷ ls) t = replay_lines pe ls t
replay_lines pe (some e ∷ ls) t = replay_lines pe ls (replay_event pe e t)

abbrev pub new_tally : File → Tally
new_tally metrics = record { actions = []; per_rule = []; samples = []; metrics = metrics }

unfoldable pub simulate : PolicyEngine → List (Option Event) → File → Tally
unfolding replay_lines
simulate pe ls metrics = replay_lines pe ls (new_tally metrics)

-- `f"{k}:{v}"`
abbrev pub pair_text : Text × ℕ → Text
pair_text (k, v) = k ++ b':' ∷ show v

-- `f"- {k}: {v}"`
abbrev pub total_line : Text × ℕ → Text
total_line (k, v) = codes "- " ++ (k ++ (codes ": " ++ show v))

-- `f"- {rid}: {parts}"`
abbrev pub rule_line : Text × Dict ℕ → Text
rule_line (rid, acts) =
    codes "- " ++ (rid ++ (codes ": " ++ join (codes ", ") (map pair_text (by_key acts))))

-- The lines of `write_report` behind the title.
unfoldable pub report_lines : Tally → List Text
unfolding by_key show join
report_lines t =
    codes "" ∷ codes "## Totals by Action" ∷ []
    ++ map total_line (by_key t.actions)
    ++ codes "" ∷ codes "## By Rule" ∷ []
    ++ map rule_line t.per_rule

-- How many of the events the engine decides on with this rule and this action.
unfoldable pub decided : PolicyEngine → Text → Text → List (Option Event) → ℕ
decided pe rid act [] = 0
decided pe rid act (none ∷ ls) = decided pe rid act ls
decided pe rid act (some e ∷ ls) =
    (if text_eq (rule_of (decide pe e)) rid && text_eq (action_of (decide pe e)) act then 1 else 0)
    + decided pe rid act ls

cell_at-replay_lines :
    (pe : PolicyEngine) (rid act : Text) (ls : List (Option Event)) (t : Tally)
    → cell_at rid act (replay_lines pe ls t).per_rule
      ≡ cell_at rid act t.per_rule + decided pe rid act ls
unfolding replay_lines decided
cell_at-replay_lines pe rid act [] t = omega arith
cell_at-replay_lines pe rid act (none ∷ ls) t = cell_at-replay_lines pe rid act ls t
cell_at-replay_lines pe rid act (some e ∷ ls) t =
    cell_at-replay_lines pe rid act ls (replay_event pe e t)
    ∙ (unfold replay_event in
        rw (cell_at-bump rid act (rule_of (decide pe e)) (action_of (decide pe e)) t.per_rule)
          (omega arith))

-- In what `simulate` returns, the number under a rule and an action is the number of the recorded
-- events that the engine decides on with them; lines that are no JSON do not count.
pub simulate-decided :
    (pe : PolicyEngine) (rid act : Text) (ls : List (Option Event)) (metrics : File)
    → cell_at rid act (simulate pe ls metrics).per_rule ≡ decided pe rid act ls
unfolding simulate
simulate-decided pe rid act ls metrics =
    cell_at-replay_lines pe rid act ls (new_tally metrics)
    ∙ ap (λ o. get_or 0 (Dict.get act (get_or [] o)) + decided pe rid act ls) (get-empty rid)
    ∙ ap (λ o. get_or 0 o + decided pe rid act ls) (get-empty act)
    ∙ omega arith
