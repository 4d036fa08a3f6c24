-- ===== src/Api/Prom/Labels.antt =====
-- The labels of a rule's counter are the rule and the action that it was counted under.
use sqlum_ai.Common.{ℕ, ◌≡◌, ◌≢◌, refl, ap, ◌∙◌, some, [], ◌∷◌, ◌++◌, append_assoc, All, arith}
use sqlum_ai.Common.Text.{Text, codes}
use sqlum_ai.Metrics.Store.{rule_prefix}
use sqlum_ai.Api.Prom.{split_once, rule_labels, metric_line, rule_line}

-- No `:` is in the text.
abbrev pub NoColon : Text → Type 0
NoColon = All (λ c. c ≢ b':')

split_once-colon : (s t : Text) → NoColon s → split_once (s ++ b':' ∷ t) ≡ some (s, t)
unfolding split_once
split_once-colon [] t h = refl
split_once-colon (c ∷ s) t (hc, hs) = ground (arith, split_once-colon s t hs)

-- The line of a counter that `inc_rule_action` keeps for a rule, whose id has no colon, and an action, is
-- labelled with that rule and that action, whatever the action is.
pub metric_line-rule_prefix :
    (rule_id action : Text) (v : ℕ)
    → NoColon rule_id
    → metric_line (rule_prefix rule_id ++ action, v) ≡ rule_line rule_id action v
unfolding metric_line rule_labels rule_prefix
metric_line-rule_prefix rule_id action v h =
    let parts : rule_labels (rule_prefix rule_id ++ action) ≡ some (rule_id, action) =
      ap split_once (append_assoc rule_id (codes ":") action) ∙ split_once-colon rule_id action h in
    rw (metric_line, parts) refl
