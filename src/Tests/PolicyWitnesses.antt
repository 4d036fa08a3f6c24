-- ===== src/Tests/PolicyWitnesses.antt =====
-- The theorems on src/policy at concrete rules and events.
use sqlum_ai.Common.{◌≡◌, ◌≢◌, All, refl, true, false, none, some, List, [], ◌∷◌}
use sqlum_ai.Common.Text.{Text, codes, text_eq, lower, contains, starts_with}
use sqlum_ai.Common.Text.Laws.{text_eq_iff}
use sqlum_ai.Tests.Samples.{phone_rule, drop_rule, sample_rules}
use sqlum_ai.Policy.Engine.{
  one_point_zero, Event, Rule, PolicyEngine, new_engine, decide, decide_from,
}
use sqlum_ai.Policy.Engine.First.{Chooses, decide-Chooses}
use sqlum_ai.Policy.Loader.{RawRule, Entry, object, not_object, text, load_entry, load_entries}
use sqlum_ai.Policy.Loader.Sound.{
  Loads, load_entries-Loads, load_entries_extras, decide_without_upper,
}

abbrev sample_engine : PolicyEngine
sample_engine = new_engine sample_rules (some (codes "Prod"))

abbrev drop_event : Event
drop_event = record {
  database = none;
  user = none;
  sql_text = some (codes "drop table t");
  table = none;
  column = none;
  value = none;
}

decide-Chooses_example :
    Chooses (codes "prod") drop_event sample_rules (decide sample_engine drop_event)
unfolding new_engine lower
decide-Chooses_example = decide-Chooses sample_engine drop_event

plain_selectors : All (λ r. contains (lower r.selector) (codes ".") ≡ false) sample_engine.rules
unfolding new_engine lower contains starts_with
plain_selectors = (refl, (refl, tt))

differ : (s t : Text) → text_eq s t ≡ false → s ≢ t
differ s t h e = cc (h, (text_eq_iff s t).1 e)

abbrev raw_rule : Text → List Text → RawRule
raw_rule target extras = record {
  id = some (codes "x");
  target = text target;
  selector = text (codes "Phone");
  action = text (codes "block");
  reason = none;
  confidence = none;
  enabled = none;
  extras = extras;
}

abbrev gated : Entry
gated = object (raw_rule (codes "column") (codes "min_hits_to_enforce" ∷ []))

load_entries-Loads_example :
    Loads
      (gated ∷ not_object ∷ object (raw_rule (codes "column") []) ∷ [])
      (load_entries (gated ∷ not_object ∷ object (raw_rule (codes "column") []) ∷ []))
load_entries-Loads_example =
    load_entries-Loads (gated ∷ not_object ∷ object (raw_rule (codes "column") []) ∷ [])

load_entries_extras_example :
    load_entries (not_object ∷ gated ∷ object (raw_rule (codes "column") []) ∷ [])
    ≡ load_entries (not_object ∷ object (raw_rule (codes "column") []) ∷ [])
load_entries_extras_example =
    load_entries_extras (not_object ∷ [])
      (raw_rule (codes "column") (codes "min_hits_to_enforce" ∷ []))
      (object (raw_rule (codes "column") []) ∷ []) (λ e. cc)

abbrev upper_rule : Rule
upper_rule = record {
  id = codes "x";
  target = codes "Column";
  selector = codes "Phone";
  action = codes "block";
  reason = [];
  confidence = one_point_zero;
  enabled = true;
  apply_in_envs = none;
  min_hits_to_enforce = none;
}

loaded : load_entry (object (raw_rule (codes "Column") [])) ≡ some upper_rule
unfolding load_entry lower text_eq
loaded = refl

raised : upper_rule.target ≢ lower upper_rule.target
unfolding lower text_eq
raised = differ (codes "Column") (codes "column") refl

decide_without_upper_example :
    decide_from (codes "prod") (phone_rule ∷ upper_rule ∷ drop_rule ∷ []) drop_event
    ≡ decide_from (codes "prod") sample_rules drop_event
decide_without_upper_example =
    decide_without_upper (codes "prod") (phone_rule ∷ []) (raw_rule (codes "Column") []) upper_rule
      (drop_rule ∷ []) drop_event loaded raised
