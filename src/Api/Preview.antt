-- ===== src/Api/Preview.antt =====
-- `rules_test`: the decision that the rules of the API take on an event.
use sqlum_ai.Common.{◌≡◌, refl, false, Option, none, some, List, [], ◌∷◌, map}
use sqlum_ai.Common.Text.{Text, text_eq, lower}
use sqlum_ai.Policy.Engine.{
  Event, Rule, PolicyDecision, new_engine, decide, decide_from, decision_of, by_table, by_column,
  by_pattern, out_of_env,
}
use sqlum_ai.Policy.Engine.First.{decide_step}
use sqlum_ai.Policy.Engine.Match.{applies, active, selects}
use sqlum_ai.Api.Store.{ApiRule, State, list_rules}

pub record TestEvent : Type 0 where
  pub table : Option Text
  pub column : Option Text
  pub value : Option Text
  pub sql_text : Option Text

-- The engine's rule of an API rule, its two extra attributes set.
abbrev pub engine_rule : ApiRule → Rule
engine_rule r = record {
  id = r.id;
  target = r.target;
  selector = r.selector;
  action = r.action;
  reason = r.reason;
  confidence = r.confidence;
  enabled = r.enabled;
  apply_in_envs = r.apply_in_envs;
  min_hits_to_enforce = some r.min_hits_to_enforce;
}

abbrev pub tested_event : TestEvent → Event
tested_event ev = record {
  database = none;
  user = none;
  sql_text = ev.sql_text;
  table = ev.table;
  column = ev.column;
  value = ev.value;
}

unfoldable pub rules_test : TestEvent → State → PolicyDecision
unfolding decide new_engine list_rules
rules_test ev s = decide (new_engine (map engine_rule (list_rules s)) none) (tested_event ev)

-- the rules without their restriction to environments
abbrev pub everywhere : ApiRule → ApiRule
everywhere r = record r { apply_in_envs = none }

no_environment : (envs : Option (List Text)) → out_of_env [] envs ≡ false
unfolding out_of_env
no_environment none = refl
no_environment (some []) = refl
no_environment (some (e ∷ es)) = refl

applies-everywhere :
    (r : ApiRule) (e : Event)
    → applies [] e (engine_rule r) ≡ applies [] e (engine_rule (everywhere r))
unfolding applies active selects by_table by_column by_pattern text_eq lower
applies-everywhere r e = rw (no_environment r.apply_in_envs, no_environment none)

decide-everywhere :
    (rs : List ApiRule) (e : Event)
    → decide_from [] (map engine_rule rs) e ≡ decide_from [] (map engine_rule (map everywhere rs)) e
decide-everywhere [] e = unfold decide_from in refl
decide-everywhere (r ∷ rs) e =
    simp (decide_step, applies-everywhere r e, decide-everywhere rs e) (unfold decision_of in refl)

-- The decision of a test does not depend on the environments that the rules are for: the engine of a
-- test has no environment, and takes every rule as one for everywhere.
pub rules_test-everywhere :
    (ev : TestEvent) (s : State)
    → rules_test ev s
      ≡ rules_test ev (record s { rules_file = some (map everywhere (list_rules s)) })
unfolding rules_test decide new_engine list_rules lower
rules_test-everywhere ev s = decide-everywhere (list_rules s) (tested_event ev)
