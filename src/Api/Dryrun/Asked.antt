-- ===== src/Api/Dryrun/Asked.antt =====
-- What `dryrun_json` is asked for, told of a decision's entries, and how many decisions answer it.
use sqlum_ai.Common.{
  ℕ, suc, ◌+◌, ◌≡◌, ◌⊎◌, refl, sym, ap, inl, inr, ◌∙◌, Bool, true, false, not, ◌&&◌, Option, none,
  some, some-injective, List, [], ◌∷◌, ◌++◌, arith, if◌then◌else◌, Bool-cases, Option-cases,
}
use sqlum_ai.Common.Text.{Text, codes, text_eq, starts_with}
use sqlum_ai.Common.Text.Laws.{text_eq_iff, starts_with→split, starts_with-append}
use sqlum_ai.Common.Dict
use sqlum_ai.Metrics.Decisions.{Value, str, int, num, null, Decision}
use sqlum_ai.Api.Dryrun.{ts_of, rule_of, action_of, filtered_out}

-- Under the keys that name its rule and its action the decision has a text, null or nothing, as the proxy
-- writes them.
abbrev IsTextOrNull : Option Value → Type 0
IsTextOrNull none = Unit {0}
IsTextOrNull (some null) = Unit {0}
IsTextOrNull (some (str s)) = Unit {0}
IsTextOrNull (some v) = ⊥

abbrev pub HasTexts : Decision → Type 0
HasTexts d =
    IsTextOrNull (Dict.get (codes "rule_id") d) × IsTextOrNull (Dict.get (codes "action") d)

-- The decision's time is the text: the one that stands there, or no text where none does.
abbrev pub HasTime : Decision → Text → Type 0
HasTime d s =
    (Dict.get (codes "ts") d ≡ some (str s)) ⊎ ((Dict.get (codes "ts") d ≡ none) × (s ≡ []))

-- A filter that is not given, or empty, lets everything through.
abbrev pub Lets : Option Text → Text → Type 0
Lets none v = Unit {0}
Lets (some wanted) v = (wanted ≡ []) ⊎ (v ≡ wanted)

-- The decision is of the day, the rule and the action, and the filters let these through.
pub record Asked (rule action : Option Text) (day rid act : Text) (d : Decision) : Type 0 where
  pub behind : Text
  pub time : HasTime d (day ++ behind)
  pub rule_is : rule_of d ≡ rid
  pub action_is : action_of d ≡ act
  pub rule_let : Lets rule rid
  pub action_let : Lets action act

-- `n` of the decisions are asked for.
pub data Counts (rule action : Option Text) (day rid act : Text) : List Decision → ℕ → Type 0 where
  ends : Counts rule action day rid act [] 0
  asked :
      {d : Decision} {ds : List Decision} {n : ℕ}
      → Asked rule action day rid act d
      → Counts rule action day rid act ds n
      → Counts rule action day rid act (d ∷ ds) (suc n)
  passed :
      {d : Decision} {ds : List Decision} {n : ℕ}
      → (Asked rule action day rid act d → ⊥)
      → Counts rule action day rid act ds n
      → Counts rule action day rid act (d ∷ ds) n

pub HasTime-ts_of : (d : Decision) (s : Text) → HasTime d s → ts_of d ≡ some s
unfolding ts_of
HasTime-ts_of d s (inl e) = rw (ts_of, e) refl
HasTime-ts_of d s (inr (e, empty)) = rw (ts_of, e, empty) refl

pub ts_of-HasTime : (d : Decision) (s : Text) → ts_of d ≡ some s → HasTime d s
unfolding ts_of
ts_of-HasTime d s h = elim (Option-cases (Dict.get (codes "ts") d)) [
  | inr e ↦ inr (e, sym (some-injective _ _ (rw (ts_of, e) at h)))
  | inl (str t, e) ↦ inl (e ∙ ap (λ x. some (str x)) (some-injective _ _ (rw (ts_of, e) at h)))
  | inl (int n, e) ↦ absurd (cc (rw (ts_of, e) at h))
  | inl (num n, e) ↦ absurd (cc (rw (ts_of, e) at h))
  | inl (null, e) ↦ absurd (cc (rw (ts_of, e) at h))
]

filtered_out-Lets :
    (wanted : Option Text) (v : Text) → filtered_out wanted v ≡ false → Lets wanted v
filtered_out-Lets none v h = tt
filtered_out-Lets (some []) v h = inl refl
filtered_out-Lets (some (c ∷ w)) v h = inr (ground (arith, text_eq_iff v (c ∷ w)))

Lets-filtered_out :
    (wanted : Option Text) (v : Text) → Lets wanted v → filtered_out wanted v ≡ false
Lets-filtered_out none v h = refl
Lets-filtered_out (some []) v h = refl
Lets-filtered_out (some (c ∷ w)) v (inl e) = absurd (cc e)
Lets-filtered_out (some (c ∷ w)) v (inr e) = ground (arith, text_eq_iff v (c ∷ w))

module _ (rule action : Option Text) (day rid act : Text) where
  -- the tests of a decision with the time `ts`
  abbrev pub tests : Text → Decision → Bool
  tests ts d =
      starts_with ts day
      && not (filtered_out rule (rule_of d))
      && not (filtered_out action (action_of d))

  abbrev pub is_cell : Decision → Bool
  is_cell d = text_eq (rule_of d) rid && text_eq (action_of d) act

  tests-Asked :
      (ts : Text) (d : Decision)
      → ts_of d ≡ some ts
      → (tests ts d && is_cell d) ≡ true
      → Asked rule action day rid act d
  tests-Asked ts d e h =
      let day_test : starts_with ts day ≡ true = ground arith in
      let (t, split) = starts_with→split ts day day_test in
      let same_rule : rule_of d ≡ rid = ground (arith, text_eq_iff (rule_of d) rid) in
      let same_action : action_of d ≡ act = ground (arith, text_eq_iff (action_of d) act) in
      record {
        behind = t;
        time = ts_of-HasTime d (day ++ t) (e ∙ ap some split);
        rule_is = same_rule;
        action_is = same_action;
        rule_let = rw (← same_rule) (filtered_out-Lets rule (rule_of d) (ground arith));
        action_let = rw (← same_action) (filtered_out-Lets action (action_of d) (ground arith));
      }

  Asked-tests :
      (ts : Text) (d : Decision)
      → ts_of d ≡ some ts
      → Asked rule action day rid act d
      → (tests ts d && is_cell d) ≡ true
  Asked-tests ts d e a =
      let same : ts ≡ day ++ a.behind =
        some-injective _ _ (sym e ∙ HasTime-ts_of d (day ++ a.behind) a.time) in
      rw
        (
          same,
          a.rule_is,
          a.action_is,
          Lets-filtered_out rule rid a.rule_let,
          Lets-filtered_out action act a.action_let,
          starts_with-append day a.behind,
        )
        (ground (arith, text_eq_iff rid rid, text_eq_iff act act))

  pub Counts-cons :
      (ts : Text) (d : Decision) (ds : List Decision) (n : ℕ)
      → ts_of d ≡ some ts
      → Counts rule action day rid act ds n
      → Counts rule action day rid act (d ∷ ds) ((if tests ts d && is_cell d then 1 else 0) + n)
  Counts-cons ts d ds n e c = elim (Bool-cases (tests ts d && is_cell d)) [
    | inl h ↦ rw h (rw (one_more n) (asked (tests-Asked ts d e h) c))
    | inr h ↦ rw h (rw (no_more n) (passed (λ a. cc (h, Asked-tests ts d e a)) c))
  ]
    where
      one_more : (n : ℕ) → 1 + n ≡ suc n
      one_more n = omega arith

      no_more : (n : ℕ) → 0 + n ≡ n
      no_more n = omega arith

  pub Counts-untimed :
      (d : Decision) (ds : List Decision) (n : ℕ)
      → ts_of d ≡ none
      → Counts rule action day rid act ds n
      → Counts rule action day rid act (d ∷ ds) n
  Counts-untimed d ds n e c = passed (λ a. cc (e, HasTime-ts_of d (day ++ a.behind) a.time)) c
