-- ===== src/Api/Diff.antt =====
-- `rules_diff`: how the proposed rules differ from the rules.
pub mod Promoted
use sqlum_ai.Common.{
  ℕ, ◌*◌, ◌^◌, ◌==◌, Bool, true, false, not, ◌&&◌, Option, none, some, List, [], ◌∷◌, if◌then◌else◌,
  is_some,
}
use sqlum_ai.Common.Text.{Text, text_eq}
use sqlum_ai.Common.Dict
use sqlum_ai.Common.Dict.{Dict}
use sqlum_ai.Policy.Engine.{Number}
use sqlum_ai.Api.Store.{ApiRule, State, read}

abbrev pub bool_eq : Bool → Bool → Bool
bool_eq true b = b
bool_eq false b = not b

unfoldable pub number_eq : Number → Number → Bool
number_eq a b = bool_eq a.negative b.negative && a.units * 10 ^ b.scale == b.units * 10 ^ a.scale

unfoldable pub texts_eq : List Text → List Text → Bool
unfolding text_eq
texts_eq [] [] = true
texts_eq [] (t ∷ ts) = false
texts_eq (s ∷ ss) [] = false
texts_eq (s ∷ ss) (t ∷ ts) = let rest = texts_eq ss ts in if text_eq s t then rest else false

unfoldable pub envs_eq : Option (List Text) → Option (List Text) → Bool
unfolding texts_eq
envs_eq none none = true
envs_eq none (some b) = false
envs_eq (some a) none = false
envs_eq (some a) (some b) = texts_eq a b

-- `a.model_dump() == b.model_dump()`
unfoldable pub rule_eq : ApiRule → ApiRule → Bool
unfolding number_eq envs_eq text_eq
rule_eq a b =
    text_eq a.id b.id
    && text_eq a.target b.target
    && text_eq a.selector b.selector
    && text_eq a.action b.action
    && text_eq a.reason b.reason
    && number_eq a.confidence b.confidence
    && bool_eq a.enabled b.enabled
    && envs_eq a.apply_in_envs b.apply_in_envs
    && a.min_hits_to_enforce == b.min_hits_to_enforce

-- `{r.id: r for r in rules}`, behind the entries so far
unfoldable pub by_id : Dict ApiRule → List ApiRule → Dict ApiRule
by_id d [] = d
by_id d (r ∷ rs) = by_id (Dict.put r.id r d) rs

-- The rules of the first dict whose keys the second lacks.
unfoldable pub lacking : Dict ApiRule → Dict ApiRule → List ApiRule
lacking [] other = []
lacking ((k, r) ∷ d) other =
    let rest = lacking d other in if is_some (Dict.get k other) then rest else r ∷ rest

abbrev pub differs : Option ApiRule → Option ApiRule → Bool
differs none b = false
differs (some a) none = false
differs (some a) (some b) = not (rule_eq a b)

-- The keys of both dicts at which the rules differ. The source goes over a set: their order is not
-- part of the answer.
unfoldable pub changed_keys : Dict ApiRule → Dict ApiRule → Dict ApiRule → List Text
unfolding rule_eq
changed_keys [] cur prop = []
changed_keys ((k, r) ∷ d) cur prop =
    let rest = changed_keys d cur prop in
    if differs (Dict.get k cur) (Dict.get k prop) then k ∷ rest else rest

pub record Difference : Type 0 where
  pub added : List ApiRule
  pub removed : List ApiRule
  pub changed : List Text

unfoldable pub rules_diff : State → Difference
unfolding by_id lacking changed_keys
rules_diff s =
    let cur = by_id [] (read s.rules_file) in
    let prop = by_id [] (read s.proposed_file) in
    record {
      added = lacking prop cur;
      removed = lacking cur prop;
      changed = changed_keys cur cur prop;
    }
