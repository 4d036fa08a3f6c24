-- ===== src/Tests/ApiWitnesses.antt =====
-- The theorems on src/api.py at concrete rules.
use sqlum_ai.Common.{◌≡◌, true, none, some, List, [], ◌∷◌}
use sqlum_ai.Common.Text.{Text, codes, text_eq}
use sqlum_ai.Common.Dict
use sqlum_ai.Policy.Engine.{one_point_zero}
use sqlum_ai.Metrics.Decisions.{Log, str, natural, parsed, tail}
use sqlum_ai.Api.Preview.{TestEvent}
use sqlum_ai.Api.Dryrun.{dryrun_json}
use sqlum_ai.Api.Dryrun.Answered.{Answers, dryrun_json-Answers}
use sqlum_ai.Api.Store.{ApiRule, State}
use sqlum_ai.Api.Store.Refined.{run, spec_run, view, run-spec_run}
use sqlum_ai.Api.Store.Laws.{Request, delete, IsValid, add, propose, promote, serve, serve-IsValid}

abbrev api_rule : Text → ApiRule
api_rule id = record {
  id = id;
  target = codes "table";
  selector = codes "T";
  action = codes "block";
  reason = [];
  confidence = one_point_zero;
  enabled = true;
  apply_in_envs = none;
  min_hits_to_enforce = 0;
}

abbrev one_rule : State
one_rule = record { rules_file = some (api_rule (codes "a") ∷ []); proposed_file = none }

one_rule-IsValid : IsValid one_rule
one_rule-IsValid = record { rules = (tt, tt); proposed = tt }

serve-IsValid_example :
    IsValid
      (serve one_rule (add (api_rule (codes "a")) ∷ propose (api_rule (codes "b")) ∷ promote ∷ []))
serve-IsValid_example =
    serve-IsValid one_rule
      (add (api_rule (codes "a")) ∷ propose (api_rule (codes "b")) ∷ promote ∷ []) one_rule-IsValid

-- One that is refused, one that is served, and one that empties the file.
abbrev three_requests : List Request
three_requests =
    add (api_rule (codes "a")) ∷ propose (api_rule (codes "b")) ∷ delete (codes "a") ∷ []

run-spec_run_example :
    (view (run one_rule three_requests).0, (run one_rule three_requests).1)
    ≡ spec_run (view one_rule) three_requests
run-spec_run_example = run-spec_run one_rule three_requests

abbrev restricted : State
restricted = record {
  rules_file =
      some (record (api_rule (codes "a")) { apply_in_envs = some (codes "dev" ∷ []) } ∷ []);
  proposed_file = none;
}

abbrev on_table : TestEvent
on_table = record { table = some (codes "T"); column = none; value = none; sql_text = none }

abbrev one_decision : Log
one_decision = some (
    some ((codes "ts", str (codes "2025-01-01T00")) ∷ (codes "action", str (codes "Block")) ∷ [])
    ∷ [])

dryrun_json-Answers_example :
    Answers none none
      (codes "2025-01-01")
      (tail (natural 10000) one_decision)
      (dryrun_json none none (codes "2025-01-01") one_decision)
unfolding tail parsed Dict.get text_eq
dryrun_json-Answers_example =
    dryrun_json-Answers none none (codes "2025-01-01") one_decision ((tt, tt), tt)
