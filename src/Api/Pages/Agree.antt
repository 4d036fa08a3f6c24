-- ===== src/Api/Pages/Agree.antt =====
-- The two views of a day's dry run.
use sqlum_ai.Common.{◌-◌, ◌≤◌, ◌≡◌, refl, ap, Option, none, some, [], length, drop, arith}
use sqlum_ai.Common.Text.{Text}
use sqlum_ai.Metrics.Decisions.{Log, lines, tail, last_lines, parsed}
use sqlum_ai.Api.Dryrun.{tally, dryrun_json}
use sqlum_ai.Api.Pages.{dryrun_table}

-- For a log of at most 5000 lines, the page counts what `dryrun_json` answers to the same filters and
-- day; of a longer log it reads less.
pub dryrun_table-dryrun_json :
    (rule action : Option Text) (day : Text) (log : Log)
    → length (lines log) ≤ 5000
    → dryrun_table rule action day log ≡ dryrun_json rule action day log
unfolding dryrun_table dryrun_json tail last_lines
dryrun_table-dryrun_json rule action day none h = refl
dryrun_table-dryrun_json rule action day (some ls) h =
    let few : length ls - 5000 ≡ length ls - 10000 = omega arith in
    ap (λ n. tally rule action day (parsed (drop n ls)) []) few
