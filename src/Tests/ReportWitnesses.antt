-- ===== src/Tests/ReportWitnesses.antt =====
-- The theorems on the scripts that report, and on the pages of src/api.py, at concrete events and logs.
use sqlum_ai.Common.{
  ◌≡◌, ◌↔◌, refl, sym, some-injective, none, some, List, [], ◌∷◌, ◌++◌, length, arith, All, Option,
}
use sqlum_ai.Common.Text.{Text, codes, text_eq}
use sqlum_ai.Common.Dict
use sqlum_ai.Common.Table.{Table, cell_at}
use sqlum_ai.Policy.Engine.{Event, new_engine}
use sqlum_ai.Metrics.Store.{missing, rule_prefix}
use sqlum_ai.Metrics.Decisions.{str, Decision, Log, parsed, lines}
use sqlum_ai.Proxy.Suggested.{suggested}
use sqlum_ai.Api.Dryrun.{dryrun_json}
use sqlum_ai.Api.Dryrun.Asked.{Counts}
use sqlum_ai.Api.Prom.{metric_line, rule_line}
use sqlum_ai.Api.Prom.Labels.{metric_line-rule_prefix}
use sqlum_ai.Api.Insights.{line_html}
use sqlum_ai.Api.Insights.Escaped.{IsElement, line_html-IsInert}
use sqlum_ai.Scripts.Replay.{simulate, decided, simulate-decided}
use sqlum_ai.Scripts.DryrunReport.{day_summary}
use sqlum_ai.Scripts.DryrunReport.Same.{HasTextAction, day_summary-dryrun_json}
use sqlum_ai.Scripts.Profiles.{aggregate, profile_at}
use sqlum_ai.Scripts.Profiles.Counted.{HasCounted, named, aggregate-HasCounted}
use sqlum_ai.Scripts.Insights.{count_actions, load_decisions_for_date}
use sqlum_ai.Scripts.Insights.Counted.{count_actions-judged}
use sqlum_ai.Scripts.ReadXevents.{EventElement, parse_ring_buffer, read_xel_files}
use sqlum_ai.Scripts.ReadXevents.Agree.{parse_ring_buffer-read_xel_files}
use sqlum_ai.Tests.Samples.{sample_rules}

abbrev drop_event : Event
drop_event = record {
  database = none;
  user = none;
  sql_text = some (codes "drop table t");
  table = none;
  column = none;
  value = none;
}

simulate-decided_example :
    cell_at
      (codes "d")
      (codes "block")
      (simulate (new_engine sample_rules none) (some drop_event ∷ none ∷ []) missing).per_rule
    ≡ decided
        (new_engine sample_rules none)
        (codes "d")
        (codes "block")
        (some drop_event ∷ none ∷ [])
simulate-decided_example =
    simulate-decided (new_engine sample_rules none) (codes "d") (codes "block")
      (some drop_event ∷ none ∷ []) missing

abbrev block_decision : Decision
block_decision =
    (codes "ts", str (codes "2025-01-02T10:00"))
    ∷ (codes "action", str (codes "BLOCK"))
    ∷ (codes "rule_id", str (codes "d"))
    ∷ []

abbrev short_log : Log
short_log = some (some block_decision ∷ none ∷ [])

texts : All HasTextAction (parsed (lines short_log))
texts = unfold parsed Dict.get text_eq in (λ v e. (codes "BLOCK", sym (some-injective _ _ e)), tt)

abbrev short_table : Table
short_table = (codes "d", (codes "block", 1) ∷ []) ∷ []

short_answer : dryrun_json none none (codes "2025-01-02") short_log ≡ some short_table
unfolding dryrun_json text_eq Dict.put
short_answer = refl

day_summary-dryrun_json_example :
    cell_at (codes "d") (codes "block") (day_summary (codes "2025-01-02") short_log).per_rule
    ≡ cell_at (codes "d") (codes "block") short_table
day_summary-dryrun_json_example =
    day_summary-dryrun_json (codes "2025-01-02") (codes "d") (codes "block") short_log short_table
      (omega arith) texts short_answer

abbrev events : List (Option (Option Text))
events =
    some (some (codes "insert into T (Phone) values ('070 12')"))
    ∷ none
    ∷ some (some (codes "update T set Phone = '1' where id = 2"))
    ∷ []

aggregate-HasCounted_example :
    HasCounted
      (named (codes "T.Phone") events)
      (profile_at (codes "T.Phone") (aggregate suggested events).0)
aggregate-HasCounted_example = aggregate-HasCounted suggested (codes "T.Phone") events

count_actions-judged_example :
    Counts none none (codes "2025-01-02") (codes "d") (codes "block") (parsed (lines short_log)) (
      cell_at
        (codes "d")
        (codes "block")
        (count_actions (load_decisions_for_date (codes "2025-01-02") short_log) []))
count_actions-judged_example =
    count_actions-judged (codes "2025-01-02") (codes "d") (codes "block") short_log
      (unfold parsed Dict.get text_eq in ((tt, tt), tt)) (unfold Dict.get text_eq in refl)

abbrev xe_event : EventElement
xe_event = record {
  name = some (codes "sql_batch_completed");
  timestamp = none;
  actions = (some (codes "username"), some (codes "sa")) ∷ [];
  items = (some (codes "duration"), some (codes "12")) ∷ (some (codes "batch_text"), none) ∷ [];
}

parse_ring_buffer-read_xel_files_example :
    (parse_ring_buffer (xe_event ∷ []) ≡ some (read_xel_files (xe_event ∷ []))) ↔ (
      (read_xel_files (xe_event ∷ []) ≡ read_xel_files (xe_event ∷ []))
      × (length (read_xel_files (xe_event ∷ [])) ≡ 1))
parse_ring_buffer-read_xel_files_example =
    parse_ring_buffer-read_xel_files (xe_event ∷ []) (read_xel_files (xe_event ∷ []))

metric_line-rule_prefix_example :
    metric_line (rule_prefix (codes "d") ++ codes "block", 3)
    ≡ rule_line (codes "d") (codes "block") 3
metric_line-rule_prefix_example =
    metric_line-rule_prefix (codes "d") (codes "block") 3 (ground arith)

line_html-IsInert_example : IsElement (codes "- <b>") (line_html (codes "- <b>"))
line_html-IsInert_example = line_html-IsInert (codes "- <b>")
