-- ===== src/Api/Store.antt =====
-- The rules, the proposed rules, and the handlers that list, add, delete and promote them.
pub mod Laws
pub mod Refined
use sqlum_ai.Common.{
  ℕ, Bool, true, false, not, Option, none, some, List, [], ◌∷◌, ◌++◌, any, keep, length,
  if◌then◌else◌, ◌==◌,
}
use sqlum_ai.Common.Text.{Text, text_eq}
use sqlum_ai.Policy.Engine.{Number}

-- `class Rule(BaseModel)`; pydantic has checked the target and the action.
pub record ApiRule : Type 0 where
  pub id : Text
  pub target : Text
  pub selector : Text
  pub action : Text
  pub reason : Text
  pub confidence : Number
  pub enabled : Bool
  pub apply_in_envs : Option (List Text)
  pub min_hits_to_enforce : ℕ

-- The files at RULES_PATH and PROPOSED_RULES_PATH; `none` is a file that is not there.
pub record State : Type 0 where
  pub rules_file : Option (List ApiRule)
  pub proposed_file : Option (List ApiRule)

pub data Answer {ℓ} (A : Type ℓ) : Type ℓ where
  ok : A → Answer A
  http_error : ℕ → Answer A

-- `_read_rules` and `_read_rules_from`
abbrev pub read : Option (List ApiRule) → List ApiRule
read none = []
read (some rs) = rs

unfoldable pub list_rules : State → List ApiRule
list_rules s = read s.rules_file

unfoldable pub list_rules_proposed : State → List ApiRule
list_rules_proposed s = read s.proposed_file

-- `any(r.id == rule.id for r in rules)`
abbrev pub has_id : Text → List ApiRule → Bool
has_id id = any (λ r. text_eq r.id id)

unfoldable pub add_rule : ApiRule → State → State × Answer ApiRule
unfolding list_rules
add_rule rule s =
    if has_id rule.id (list_rules s)
    then (s, http_error 409)
    else (record s { rules_file = some (list_rules s ++ rule ∷ []) }, ok rule)

unfoldable pub delete_rule : Text → State → State × Answer Text
unfolding list_rules
delete_rule rule_id s =
    let new_rules = keep (λ r. not (text_eq r.id rule_id)) (list_rules s) in
    if length new_rules == length (list_rules s)
    then (s, http_error 404)
    else (record s { rules_file = some new_rules }, ok rule_id)

unfoldable pub add_rule_proposed : ApiRule → State → State × Answer ApiRule
unfolding list_rules_proposed
add_rule_proposed rule s =
    if has_id rule.id (list_rules_proposed s)
    then (s, http_error 409)
    else (record s { proposed_file = some (list_rules_proposed s ++ rule ∷ []) }, ok rule)

unfoldable pub rules_promote : State → State × Answer ℕ
unfolding list_rules_proposed
rules_promote s =
    (record s { rules_file = some (list_rules_proposed s) }, ok (length (list_rules_proposed s)))
