-- ===== src/Api/Diff/Promoted.antt =====
-- Promoted rules do not differ from the proposed ones.
use sqlum_ai.Common.{
  ℕ, ◌==◌, ◌≡◌, inl, inr, refl, sym, ap, ◌∙◌, append_assoc, Bool, true, false, Option, none, some,
  List, [], ◌∷◌, ◌++◌, is_some, Bool-cases, ==_iff,
}
use sqlum_ai.Common.Text.{Text, text_eq}
use sqlum_ai.Common.Text.Laws.{text_eq_refl}
use sqlum_ai.Common.Dict
use sqlum_ai.Common.Dict.{Dict}
use sqlum_ai.Policy.Engine.{Number}
use sqlum_ai.Api.Store.{ApiRule, State, read, rules_promote, list_rules_proposed}
use sqlum_ai.Api.Diff.{
  bool_eq, number_eq, texts_eq, envs_eq, rule_eq, by_id, lacking, differs, changed_keys, rules_diff,
}

bool_eq_refl : (b : Bool) → bool_eq b b ≡ true
bool_eq_refl true = refl
bool_eq_refl false = refl

==_refl : (n : ℕ) → (n == n) ≡ true
==_refl n = (==_iff n n).1 refl

texts_eq_refl : (ts : List Text) → texts_eq ts ts ≡ true
unfolding texts_eq
texts_eq_refl [] = refl
texts_eq_refl (t ∷ ts) = rw (texts_eq, text_eq_refl t) (texts_eq_refl ts)

envs_eq_refl : (e : Option (List Text)) → envs_eq e e ≡ true
unfolding envs_eq
envs_eq_refl none = refl
envs_eq_refl (some ts) = texts_eq_refl ts

number_eq_refl : (n : Number) → number_eq n n ≡ true
unfolding number_eq
number_eq_refl n = rw (bool_eq_refl n.negative, ==_refl)

rule_eq_refl : (r : ApiRule) → rule_eq r r ≡ true
unfolding rule_eq
rule_eq_refl r = rw (
  text_eq_refl r.id,
  text_eq_refl r.target,
  text_eq_refl r.selector,
  text_eq_refl r.action,
  text_eq_refl r.reason,
  number_eq_refl,
  bool_eq_refl,
  envs_eq_refl,
  ==_refl,
)

same_rule : (o : Option ApiRule) → differs o o ≡ false
same_rule none = refl
same_rule (some r) = rw (rule_eq_refl r)

unchanged : (d e : Dict ApiRule) → changed_keys d e e ≡ []
unfolding changed_keys
unchanged [] e = refl
unchanged ((k, r) ∷ d) e = rw (changed_keys, same_rule (Dict.get k e)) (unchanged d e)

-- every key of the front part is found
found_after :
    (front : Dict ApiRule) (k : Text) (r : ApiRule) (d : Dict ApiRule)
    → is_some (Dict.get k (front ++ (k, r) ∷ d)) ≡ true
unfolding Dict.get
found_after [] k r d = rw (Dict.get, text_eq_refl k)
found_after ((j, q) ∷ front) k r d = elim (Bool-cases (text_eq j k)) [
  | inl same ↦ rw (Dict.get, same)
  | inr other ↦ rw (Dict.get, other) (found_after front k r d)
]

none_lacking : (front d : Dict ApiRule) → lacking d (front ++ d) ≡ []
unfolding lacking
none_lacking front [] = refl
none_lacking front ((k, r) ∷ d) =
    rw (lacking, found_after front k r d)
      (ap (lacking d) (sym (append_assoc front ((k, r) ∷ []) d))
        ∙ none_lacking (front ++ (k, r) ∷ []) d)

-- Right after the proposed rules have been promoted there is no difference: nothing is added,
-- removed or changed.
pub rules_diff-rules_promote :
    (s : State) → rules_diff (rules_promote s).0 ≡ record { added = []; removed = []; changed = [] }
unfolding rules_diff rules_promote list_rules_proposed
rules_diff-rules_promote s = rw (
  none_lacking [] (by_id [] (read s.proposed_file)),
  unchanged (by_id [] (read s.proposed_file)) (by_id [] (read s.proposed_file)),
)
