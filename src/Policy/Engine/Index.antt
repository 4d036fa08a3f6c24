-- ===== src/Policy/Engine/Index.antt =====
-- `get_rule` against the list of rules.
use sqlum_ai.Common.{
  ◌≡◌, ◌≢◌, refl, ap, Option, none, some, List, [], ◌∷◌, ◌++◌, arith, All, if◌then◌else◌, ◌∙◌,
}
use sqlum_ai.Common.Text.{Text, text_eq, nonempty}
use sqlum_ai.Common.Text.Laws.{text_eq_refl, text_eq-false}
use sqlum_ai.Common.Dict
use sqlum_ai.Common.Dict.{Dict, get-put, get-empty}
use sqlum_ai.Policy.Engine.{Rule, index_rules, new_engine, get_rule}

-- The last rule of the list that has the id.
unfoldable pub last_with : Text → List Rule → Option Rule
last_with id [] = none
last_with id (r ∷ rs) = elim (last_with id rs) [
  | some q ↦ some q
  | none ↦ if text_eq r.id id then some r else none
]

abbrev first_some : Option Rule → Option Rule → Option Rule
first_some none b = b
first_some (some q) b = some q

get-index_rules :
    (id : Text) (rules : List Rule) (d : Dict Rule)
    → Dict.get id (index_rules d rules) ≡ first_some (last_with id rules) (Dict.get id d)
unfolding index_rules last_with
get-index_rules id [] d = refl
get-index_rules id (r ∷ rs) d =
    get-index_rules id rs (Dict.put r.id r d) ∙ rw (get-put r.id id r d) (ground arith)

-- In an engine that `__init__` built, a non-empty id finds the last rule that has it, and no other
-- id finds a rule.
pub get_rule-new_engine :
    (rules : List Rule) (environment : Option Text) (id : Option Text)
    → get_rule (new_engine rules environment) id
      ≡ elim id [ none ↦ none | some i ↦ if nonempty i then last_with i rules else none ]
unfolding get_rule new_engine
get_rule-new_engine rules environment none = refl
get_rule-new_engine rules environment (some i) =
    ap (λ o. if nonempty i then o else none) (get-index_rules i rules [] ∙ found_before)
  where
    found_before : first_some (last_with i rules) (Dict.get i []) ≡ last_with i rules
    found_before = ground (arith, get-empty {V = Rule} i)

-- No two rules have one id.
abbrev pub UniqueIds : List Rule → Type 0
UniqueIds [] = Unit {0}
UniqueIds (r ∷ rs) = All (λ q. q.id ≢ r.id) rs × UniqueIds rs

last_with-lacks :
    (id : Text) (rules : List Rule) → All (λ q. q.id ≢ id) rules → last_with id rules ≡ none
unfolding last_with
last_with-lacks id [] h = refl
last_with-lacks id (r ∷ rs) (h, hs) = rw (last_with-lacks id rs hs, text_eq-false r.id id h)

last_with_unique :
    (front : List Rule) (r : Rule) (back : List Rule)
    → UniqueIds (front ++ r ∷ back)
    → last_with r.id (front ++ r ∷ back) ≡ some r
unfolding last_with
last_with_unique [] r back (h, hs) = rw (last_with-lacks r.id back h, text_eq_refl r.id)
last_with_unique (q ∷ front) r back (h, hs) = rw (last_with_unique front r back hs)

-- With unique ids and a non-empty id, each rule is found by its own id.
pub get_rule_own :
    (front : List Rule) (r : Rule) (back : List Rule) (environment : Option Text)
    → UniqueIds (front ++ r ∷ back)
    → r.id ≢ []
    → get_rule (new_engine (front ++ r ∷ back) environment) (some r.id) ≡ some r
get_rule_own front r back environment u ne =
    rw (get_rule-new_engine, last_with_unique front r back u) (nonempty-id r.id r ne)
  where
    nonempty-id : (i : Text) (q : Rule) → i ≢ [] → (if nonempty i then some q else none) ≡ some q
    nonempty-id [] q n = absurd (n refl)
    nonempty-id (c ∷ s) q n = refl
