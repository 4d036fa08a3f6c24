-- ===== src/Policy/Engine.antt =====
-- src/policy/engine.py: events, rules and decisions, and `PolicyEngine`.
pub mod Match
pub mod First
pub mod Index
use sqlum_ai.Common.{
  ℕ, ◌≡◌, refl, Bool, true, false, not, ◌&&◌, ◌||◌, Option, none, some, List, [], ◌∷◌, any, map,
  if◌then◌else◌, ◌==◌,
}
use sqlum_ai.Common.Text.{Text, codes, text_eq, nonempty, lower, contains, lstrip_by, last_part}
use sqlum_ai.Common.Dict
use sqlum_ai.Common.Dict.{Dict}

-- A float that the program only hands on, as it is written: `units` over ten to the `scale`.
pub record Number : Type 0 where
  pub negative : Bool
  pub units : ℕ
  pub scale : ℕ

abbrev pub one_point_zero : Number
one_point_zero = record { negative = false; units = 10; scale = 1 }

pub record Event : Type 0 where
  pub database : Option Text
  pub user : Option Text
  pub sql_text : Option Text
  pub table : Option Text
  pub column : Option Text
  pub value : Option Text

pub record PolicyDecision : Type 0 where
  pub action : Text
  pub reason : Text
  pub confidence : Number
  pub corrected_value : Option Text
  pub rule_id : Option Text

-- The last two fields are the attributes that `getattr` looks for; the dataclass does not declare
-- them, and src/api.py sets them.
pub record Rule : Type 0 where
  pub id : Text
  pub target : Text
  pub selector : Text
  pub action : Text
  pub reason : Text
  pub confidence : Number
  pub enabled : Bool
  pub apply_in_envs : Option (List Text)
  pub min_hits_to_enforce : Option ℕ

pub record PolicyEngine : Type 0 where
  pub rules : List Rule
  pub environment : Text
  pub rule_index : Dict Rule

-- `x or ""` of an optional text
abbrev pub or_empty : Option Text → Text
or_empty none = []
or_empty (some s) = s

-- `{r.id: r for r in rules}`, behind the entries so far
unfoldable pub index_rules : Dict Rule → List Rule → Dict Rule
index_rules d [] = d
index_rules d (r ∷ rs) = index_rules (Dict.put r.id r d) rs

-- `__init__`
unfoldable pub new_engine : List Rule → Option Text → PolicyEngine
unfolding index_rules
new_engine rules environment = record {
  rules = rules;
  environment = lower (or_empty environment);
  rule_index = index_rules [] rules;
}

-- `getattr(r, "apply_in_envs", None)`, its truth, and the test of the environment against it: is the
-- rule passed over?
unfoldable pub out_of_env : Text → Option (List Text) → Bool
out_of_env environment none = false
out_of_env environment (some []) = false
out_of_env environment (some (e ∷ es)) =
    nonempty environment && not (any (λ x. text_eq (lower x) environment) (e ∷ es))

unfoldable pub is_at : ℕ → Bool
is_at c = c == b'@'

unfoldable pub by_table : Rule → Event → Bool
by_table r e =
    text_eq r.target (codes "table")
    && nonempty (or_empty e.table)
    && text_eq (lower r.selector) (lower (or_empty e.table))

-- A selector with a dot is compared whole, any other with the last part of the column.
unfoldable pub by_column : Rule → Event → Bool
by_column r e =
    text_eq r.target (codes "column")
    && nonempty (or_empty e.column)
    && (let sel = lower r.selector in
        let col = lower (or_empty e.column) in
        if contains sel (codes ".")
        then text_eq sel col
        else text_eq (lstrip_by is_at sel) (lstrip_by is_at (last_part b'.' [] col)))

unfoldable pub by_pattern : Rule → Event → Bool
by_pattern r e =
    text_eq r.target (codes "pattern")
    && nonempty (or_empty e.sql_text)
    && contains (lower (or_empty e.sql_text)) (lower r.selector)

-- `PolicyDecision(r.action, r.reason, r.confidence, None, r.id)`
unfoldable pub decision_of : Rule → PolicyDecision
decision_of r = record {
  action = r.action;
  reason = r.reason;
  confidence = r.confidence;
  corrected_value = none;
  rule_id = some r.id;
}

unfoldable pub no_match : PolicyDecision
no_match = record {
  action = codes "allow";
  reason = codes "no matching rule";
  confidence = one_point_zero;
  corrected_value = none;
  rule_id = none;
}

-- The loop of `decide`.
unfoldable pub decide_from : Text → List Rule → Event → PolicyDecision
unfolding out_of_env by_table by_column by_pattern decision_of no_match
decide_from environment [] e = no_match
decide_from environment (r ∷ rs) e =
    let later = decide_from environment rs e in
    if not r.enabled
    then later
    else if out_of_env environment r.apply_in_envs
    then later
    else if by_table r e
    then decision_of r
    else if by_column r e
    then decision_of r
    else if by_pattern r e
    then decision_of r
    else later

unfoldable pub decide : PolicyEngine → Event → PolicyDecision
unfolding decide_from
decide p e = decide_from p.environment p.rules e

unfoldable pub get_rule : PolicyEngine → Option Text → Option Rule
get_rule p rule_id = elim rule_id [
  | none ↦ none
  | some id ↦ if nonempty id then Dict.get id p.rule_index else none
]
