-- ===== src/Tests/Samples.antt =====
-- Rules that the examples share.
use sqlum_ai.Common.{true, none, List, [], ◌∷◌}
use sqlum_ai.Common.Text.{Text, codes}
use sqlum_ai.Policy.Engine.{one_point_zero, Rule}

abbrev rule_at : Text → Text → Text → Text → Rule
rule_at id target selector action = record {
  id = id;
  target = target;
  selector = selector;
  action = action;
  reason = codes "r";
  confidence = one_point_zero;
  enabled = true;
  apply_in_envs = none;
  min_hits_to_enforce = none;
}

abbrev pub phone_rule : Rule
phone_rule = rule_at (codes "p") (codes "column") (codes "Phone") (codes "autocorrect")

abbrev pub drop_rule : Rule
drop_rule = rule_at (codes "d") (codes "pattern") (codes "DROP TABLE") (codes "block")

abbrev pub sample_rules : List Rule
sample_rules = phone_rule ∷ drop_rule ∷ []
