-- ===== src/Metrics/Store/Counters.antt =====
-- The counters of a rule, as the threshold of the proxy reads them.
use sqlum_ai.Common.{
  ℕ, ◌+◌, ◌≡◌, refl, subst, sym, ap, false, Option, none, some, [], ◌∷◌, ◌++◌, arith, if◌then◌else◌,
  Bool-cases, inl, inr, drop-append,
}
use sqlum_ai.Common.Text.{Text, text_eq, starts_with}
use sqlum_ai.Common.Text.Laws.{
  text_eq_iff, text_eq-false, text_eq-append, starts_with→split, starts_with-append,
}
use sqlum_ai.Common.Dict
use sqlum_ai.Common.Dict.{Dict, get-put, get-empty, get_or}
use sqlum_ai.Metrics.Store.{
  Counters, File, read, inc, inc_rule_action, rule_prefix, gather, get_rule_counters,
}

-- A counter after `inc`.
pub get-inc :
    (key j : Text) (by : ℕ) (f : File)
    → get_or 0 (Dict.get j (read (inc key by f)))
      ≡ get_or 0 (Dict.get j (read f)) + (if text_eq key j then by else 0)
unfolding inc read
get-inc key j by f = rw get-put (ground (arith, text_eq_iff key j))

-- No key stands twice: what a Python dict guarantees, and `inc` keeps.
abbrev pub Distinct : Counters → Type 0
Distinct [] = Unit {0}
Distinct ((k, v) ∷ d) = (Dict.get k d ≡ none) × Distinct d

put-Distinct : (k : Text) (v : ℕ) (d : Counters) → Distinct d → Distinct (Dict.put k v d)
unfolding Dict.put Dict.get
put-Distinct k v [] h = (refl, tt)
put-Distinct k v ((j, w) ∷ d) (hj, hd) = elim (Bool-cases (text_eq j k)) [
  | inl same ↦ rw (Dict.put, same) (hj, hd)
  | inr other ↦
      rw (Dict.put, other)
        (rw get-put (ground (arith, text_eq_iff k j, text_eq_iff j k)), put-Distinct k v d hd)
]

abbrev or_else : Option ℕ → Option ℕ → Option ℕ
or_else none b = b
or_else (some v) b = some v

-- One round of `gather` does right by the counter `act`.
abbrev Gathers : Text → Text → ℕ → Counters → Counters → Text → Type 0
Gathers prefix act v d out k =
    Dict.get act (gather prefix ((k, v) ∷ d) out)
    ≡ or_else (Dict.get (prefix ++ act) ((k, v) ∷ d)) (Dict.get act out)

gather_hit :
    (prefix act t : Text) (v : ℕ) (d out : Counters)
    → Dict.get act (gather prefix d (Dict.put t v out))
      ≡ or_else (Dict.get (prefix ++ act) d) (Dict.get act (Dict.put t v out))
    → Dict.get (prefix ++ t) d ≡ none
    → Gathers prefix act v d out (prefix ++ t)
unfolding gather
gather_hit prefix act t v d out ih fresh =
    rw (starts_with-append, drop-append, ih, get-put)
      (unfold Dict.get in rw (text_eq-append prefix t act) (ground (arith, text_eq_iff t act)))

gather_miss :
    (prefix act k : Text) (v : ℕ) (d out : Counters)
    → Dict.get act (gather prefix d out) ≡ or_else (Dict.get (prefix ++ act) d) (Dict.get act out)
    → starts_with k prefix ≡ false
    → Gathers prefix act v d out k
unfolding gather
gather_miss prefix act k v d out ih miss = rw (miss, ih) (unfold Dict.get in rw other refl)
  where
    other : text_eq k (prefix ++ act) ≡ false
    other =
        text_eq-false k (prefix ++ act)
          (λ e. cc (miss, ap (λ z. starts_with z prefix) e, starts_with-append prefix act))

get-gather :
    (prefix act : Text) (d out : Counters)
    → Distinct d
    → Dict.get act (gather prefix d out) ≡ or_else (Dict.get (prefix ++ act) d) (Dict.get act out)
get-gather prefix act [] out h = unfold gather Dict.get in refl
get-gather prefix act ((k, v) ∷ d) out (hk, hd) = elim (Bool-cases (starts_with k prefix)) [
  | inl hit ↦
      let (t, e) = starts_with→split k prefix hit in
      subst (λ z. Dict.get z d ≡ none → Gathers prefix act v d out z) (sym e)
        (gather_hit prefix act t v d out (get-gather prefix act d (Dict.put t v out) hd)) hk
  | inr miss ↦ gather_miss prefix act k v d out (get-gather prefix act d out hd) miss
]

-- What the file holds is a dict: no key twice.
abbrev pub IsDict : File → Type 0
IsDict f = Distinct (read f)

pub inc-IsDict : (key : Text) (by : ℕ) (f : File) → IsDict f → IsDict (inc key by f)
unfolding inc read
inc-IsDict key by f h = put-Distinct key _ _ h

-- The counters of a rule are, for every action, the counters that `inc_rule_action` keeps under
-- the rule and the action; no other rule's id and no other counter is taken for them.
pub get-get_rule_counters :
    (rule_id act : Text) (f : File)
    → IsDict f
    → Dict.get act (get_rule_counters rule_id f) ≡ Dict.get (rule_prefix rule_id ++ act) (read f)
unfolding get_rule_counters
get-get_rule_counters rule_id act f h =
    rw (get-gather (rule_prefix rule_id) act (read f) [] h) (ground (arith, get-empty {V = ℕ} act))

-- After `inc_rule_action` the counters of the rule have the action's counter raised by `by`, and
-- every other action's as it was.
pub get_rule_counters-inc_rule_action :
    (rule_id action act : Text) (by : ℕ) (f : File)
    → IsDict f
    → get_or 0 (Dict.get act (get_rule_counters rule_id (inc_rule_action rule_id action by f)))
      ≡ get_or 0 (Dict.get act (get_rule_counters rule_id f))
        + (if text_eq action act then by else 0)
unfolding inc_rule_action
get_rule_counters-inc_rule_action rule_id action act by f h = rw (
  get-get_rule_counters rule_id act _ (inc-IsDict (rule_prefix rule_id ++ action) by f h),
  get-get_rule_counters rule_id act f h,
  get-inc,
  text_eq-append,
)
