-- ===== src/Api/Store/Refined.antt =====
-- The files of rules as two finite maps from ids to rules, and the handlers against requests on such maps:
-- the order of a file, and whether an empty one is there, are forgotten.
use mathlib.Core.Path.{fun_ext}
use sqlum_ai.Common.{
  ℕ, ◌==◌, ◌≡◌, ◌<◌, ◌≤◌, ◌⊎◌, inl, inr, refl, ap, ◌∙◌, Bool, true, false, not, Option, none, some,
  List, [], ◌∷◌, ◌++◌, arith, keep, length, Bool-cases, if◌then◌else◌,
}
use sqlum_ai.Common.Text.{Text, text_eq}
use sqlum_ai.Common.Text.Laws.{text_eq_iff}
use sqlum_ai.Api.Store.{
  ApiRule, State, Answer, ok, http_error, read, list_rules, list_rules_proposed, has_id, add_rule,
  delete_rule, add_rule_proposed, rules_promote,
}
use sqlum_ai.Api.Store.Laws.{Request, add, delete, propose, promote, keep_all}

abbrev pub RuleMap : Type 0
RuleMap = Text → Option ApiRule

pub record Maps : Type 0 where
  pub rules : RuleMap
  pub proposed : RuleMap

pub data Reply : Type 0 where
  accepted : Reply
  refused : ℕ → Reply

abbrev reply {ℓ} : {A : Type ℓ} → Answer A → Reply
reply (ok x) = accepted
reply (http_error n) = refused n

-- The code: the files and the reply after a request.
unfoldable pub respond : State → Request → State × Reply
respond s (add r) = ((add_rule r s).0, reply (add_rule r s).1)
respond s (delete id) = ((delete_rule id s).0, reply (delete_rule id s).1)
respond s (propose r) = ((add_rule_proposed r s).0, reply (add_rule_proposed r s).1)
respond s promote = ((rules_promote s).0, reply (rules_promote s).1)

unfoldable pub run : State → List Request → State × List Reply
run s [] = (s, [])
run s (q ∷ qs) = let (t, a) = respond s q in let (u, rest) = run t qs in (u, a ∷ rest)

-- The specification: the same on maps.
abbrev pub insert : ApiRule → RuleMap → RuleMap
insert r m = λ id. if text_eq r.id id then some r else m id

abbrev pub remove : Text → RuleMap → RuleMap
remove id m = λ j. if text_eq id j then none else m j

unfoldable pub spec_respond : Maps → Request → Maps × Reply
spec_respond m (add r) = elim (m.rules r.id) [
  | none ↦ (record m { rules = insert r m.rules }, accepted)
  | some q ↦ (m, refused 409)
]
spec_respond m (delete id) = elim (m.rules id) [
  | none ↦ (m, refused 404)
  | some q ↦ (record m { rules = remove id m.rules }, accepted)
]
spec_respond m (propose r) = elim (m.proposed r.id) [
  | none ↦ (record m { proposed = insert r m.proposed }, accepted)
  | some q ↦ (m, refused 409)
]
spec_respond m promote = (record m { rules = m.proposed }, accepted)

unfoldable pub spec_run : Maps → List Request → Maps × List Reply
spec_run m [] = (m, [])
spec_run m (q ∷ qs) =
    let (n, a) = spec_respond m q in let (o, rest) = spec_run n qs in (o, a ∷ rest)

-- The first rule with an id.
unfoldable pub lookup : List ApiRule → RuleMap
lookup [] id = none
lookup (r ∷ rs) id = let rest = lookup rs id in if text_eq r.id id then some r else rest

unfoldable pub view : State → Maps
view s = record { rules = lookup (read s.rules_file); proposed = lookup (read s.proposed_file) }

abbrev Known : Text → List ApiRule → Type 0
Known id rs = (r : ApiRule) × (has_id id rs ≡ true) × (lookup rs id ≡ some r)

abbrev Unknown : Text → List ApiRule → Type 0
Unknown id rs = (has_id id rs ≡ false) × (lookup rs id ≡ none)

lookup-cases : (id : Text) (rs : List ApiRule) → Known id rs ⊎ Unknown id rs
unfolding lookup
lookup-cases id [] = inr (refl, refl)
lookup-cases id (r ∷ rs) = elim (Bool-cases (text_eq r.id id)) [
  | inl same ↦ inl (r, rw same refl, rw same refl)
  | inr other ↦ elim (lookup-cases id rs) [
    | inl (q, h, e) ↦ inl (q, rw other h, rw other e)
    | inr (h, e) ↦ inr (rw other h, rw other e)
  ]
]

lookup-append :
    (r : ApiRule) (rs : List ApiRule) (j : Text)
    → has_id r.id rs ≡ false
    → lookup (rs ++ r ∷ []) j ≡ insert r (lookup rs) j
unfolding lookup
lookup-append r [] j h = refl
lookup-append r (q ∷ rs) j h = elim (Bool-cases (text_eq q.id r.id)) [
  | inl same ↦ absurd (ground (arith, same))
  | inr other ↦ ground (
    arith,
    text_eq_iff q.id r.id,
    text_eq_iff q.id j,
    text_eq_iff r.id j,
    lookup-append r rs j (rw other at h),
  )
]

lookup-keep :
    (id : Text) (rs : List ApiRule) (j : Text)
    → lookup (keep (λ r. not (text_eq r.id id)) rs) j ≡ remove id (lookup rs) j
unfolding lookup
lookup-keep id [] j = ground arith
lookup-keep id (r ∷ rs) j =
    ground (arith, text_eq_iff r.id id, text_eq_iff r.id j, text_eq_iff id j, lookup-keep id rs j)

keep-length : (p : ApiRule → Bool) (rs : List ApiRule) → length (keep p rs) ≤ length rs
keep-length p [] = omega arith
keep-length p (r ∷ rs) = ground (arith, keep-length p rs)

keep_fewer :
    (id : Text) (rs : List ApiRule)
    → has_id id rs ≡ true
    → length (keep (λ r. not (text_eq r.id id)) rs) < length rs
keep_fewer id [] h = cc
keep_fewer id (r ∷ rs) h = elim (Bool-cases (text_eq r.id id)) [
  | inl same ↦ rw same (omega (arith, keep-length (λ q. not (text_eq q.id id)) rs))
  | inr other ↦ rw other (omega (arith, keep_fewer id rs (rw other at h)))
]

-- What one request does, by the handlers and by the specification.
abbrev Agrees : State → Request → Type 0
Agrees s q = (view (respond s q).0, (respond s q).1) ≡ spec_respond (view s) q

add-Agrees : (r : ApiRule) (s : State) → Agrees s (add r)
unfolding respond spec_respond view add_rule list_rules
add-Agrees r s = elim (lookup-cases r.id (read s.rules_file)) [
  | inl (q, h, e) ↦ rw (h, spec_respond, e) refl
  | inr (h, e) ↦
      rw (h, spec_respond, e)
        (ap (λ m. (record { rules = m; proposed = lookup (read s.proposed_file) }, accepted))
          (fun_ext (λ j. lookup-append r (read s.rules_file) j h)))
]

propose-Agrees : (r : ApiRule) (s : State) → Agrees s (propose r)
unfolding respond spec_respond view add_rule_proposed list_rules_proposed
propose-Agrees r s = elim (lookup-cases r.id (read s.proposed_file)) [
  | inl (q, h, e) ↦ rw (h, spec_respond, e) refl
  | inr (h, e) ↦
      rw (h, spec_respond, e)
        (ap (λ m. (record { rules = lookup (read s.rules_file); proposed = m }, accepted))
          (fun_ext (λ j. lookup-append r (read s.proposed_file) j h)))
]

delete-Agrees : (id : Text) (s : State) → Agrees s (delete id)
unfolding respond spec_respond view delete_rule list_rules
delete-Agrees id s =
    let rs = read s.rules_file in
    elim (lookup-cases id rs) [
      | inr (h, e) ↦ rw (keep_all id rs h, spec_respond, e) (ground arith)
      | inl (q, h, e) ↦
          let fewer : (length (keep (λ r. not (text_eq r.id id)) rs) == length rs) ≡ false =
            ground (arith, keep_fewer id rs h) in
          rw (fewer, spec_respond, e)
            (ap (λ m. (record { rules = m; proposed = lookup (read s.proposed_file) }, accepted))
              (fun_ext (λ j. lookup-keep id rs j)))
    ]

respond-Agrees : (s : State) (q : Request) → Agrees s q
respond-Agrees s (add r) = add-Agrees r s
respond-Agrees s (delete id) = delete-Agrees id s
respond-Agrees s (propose r) = propose-Agrees r s
respond-Agrees s promote =
    unfold respond spec_respond view rules_promote list_rules_proposed in refl

-- Served a list of requests, the handlers give the replies that two finite maps from ids to rules would give,
-- and leave files that hold what the maps then hold: an id can be added where the map has none, deleted where
-- it has one, and a promotion copies the proposed map.
pub run-spec_run :
    (s : State) (qs : List Request) → (view (run s qs).0, (run s qs).1) ≡ spec_run (view s) qs
unfolding run spec_run
run-spec_run s [] = refl
run-spec_run s (q ∷ qs) =
    ap (λ x. (x.0, (respond s q).1 ∷ x.1)) (run-spec_run (respond s q).0 qs)
    ∙ ap (λ x. ((spec_run x.0 qs).0, x.1 ∷ (spec_run x.0 qs).1)) (respond-Agrees s q)
