-- ===== src/Api/Store/Laws.antt =====
-- What the handlers keep: no id twice; and what they undo.
use sqlum_ai.Common.{
  ◌==◌, ◌≡◌, ◌≢◌, ◌⊎◌, inl, inr, refl, sym, ap, ◌∙◌, Bool, true, false, not, List, [], ◌∷◌, ◌++◌,
  append-nil, arith, keep, length, All, All-append, Bool-cases, length-append,
}
use sqlum_ai.Common.Text.{Text, text_eq}
use sqlum_ai.Common.Text.Laws.{text_eq_iff, text_eq_refl}
use sqlum_ai.Api.Store.{
  ApiRule, State, ok, http_error, read, list_rules, has_id, add_rule, delete_rule,
  add_rule_proposed, rules_promote,
}

abbrev pub Lacks : Text → List ApiRule → Type 0
Lacks id = All (λ r. r.id ≢ id)

abbrev pub UniqueIds : List ApiRule → Type 0
UniqueIds [] = Unit {0}
UniqueIds (r ∷ rs) = Lacks r.id rs × UniqueIds rs

-- No two rules of a file have one id.
pub record IsValid (s : State) : Type 0 where
  pub rules : UniqueIds (read s.rules_file)
  pub proposed : UniqueIds (read s.proposed_file)

has_id-Lacks : (id : Text) (rs : List ApiRule) → has_id id rs ≡ false → Lacks id rs
has_id-Lacks id [] h = tt
has_id-Lacks id (r ∷ rs) h = elim (Bool-cases (text_eq r.id id)) [
  | inl same ↦ absurd (ground (arith, same))
  | inr other ↦ (λ e. cc (other, (text_eq_iff r.id id).1 e), has_id-Lacks id rs (rw other at h))
]

UniqueIds-append :
    (rs : List ApiRule) (r : ApiRule) → UniqueIds rs → Lacks r.id rs → UniqueIds (rs ++ r ∷ [])
UniqueIds-append [] r u l = (tt, tt)
UniqueIds-append (q ∷ rs) r (l, u) (n, m) =
    (All-append _ rs (r ∷ []) l ((λ e. n (sym e)), tt), UniqueIds-append rs r u m)

Lacks-keep :
    (p : ApiRule → Bool) (id : Text) (rs : List ApiRule) → Lacks id rs → Lacks id (keep p rs)
Lacks-keep p id [] h = tt
Lacks-keep p id (r ∷ rs) (n, h) = elim (Bool-cases (p r)) [
  | inl in_it ↦ rw in_it (n, Lacks-keep p id rs h)
  | inr out ↦ rw out (Lacks-keep p id rs h)
]

UniqueIds-keep : (p : ApiRule → Bool) (rs : List ApiRule) → UniqueIds rs → UniqueIds (keep p rs)
UniqueIds-keep p [] u = tt
UniqueIds-keep p (r ∷ rs) (l, u) = elim (Bool-cases (p r)) [
  | inl in_it ↦ rw in_it (Lacks-keep p r.id rs l, UniqueIds-keep p rs u)
  | inr out ↦ rw out (UniqueIds-keep p rs u)
]

add_rule-IsValid : (r : ApiRule) (s : State) → IsValid s → IsValid (add_rule r s).0
unfolding add_rule
add_rule-IsValid r s v = elim (Bool-cases (has_id r.id (read s.rules_file))) [
  | inl taken ↦ rw taken v
  | inr free ↦ rw free (record {
    rules = UniqueIds-append (read s.rules_file) r v.rules (has_id-Lacks r.id _ free);
    proposed = v.proposed;
  })
]

add_rule_proposed-IsValid :
    (r : ApiRule) (s : State) → IsValid s → IsValid (add_rule_proposed r s).0
unfolding add_rule_proposed
add_rule_proposed-IsValid r s v = elim (Bool-cases (has_id r.id (read s.proposed_file))) [
  | inl taken ↦ rw taken v
  | inr free ↦ rw free (record {
    rules = v.rules;
    proposed = UniqueIds-append (read s.proposed_file) r v.proposed (has_id-Lacks r.id _ free);
  })
]

delete_rule-IsValid : (id : Text) (s : State) → IsValid s → IsValid (delete_rule id s).0
unfolding delete_rule
delete_rule-IsValid id s v =
    let kept : List ApiRule = keep (λ r. not (text_eq r.id id)) (read s.rules_file) in
    elim (Bool-cases (length kept == length (read s.rules_file))) [
      | inl same ↦ rw same v
      | inr fewer ↦
          rw fewer
            (record { rules = UniqueIds-keep _ (read s.rules_file) v.rules; proposed = v.proposed })
    ]

rules_promote-IsValid : (s : State) → IsValid s → IsValid (rules_promote s).0
unfolding rules_promote
rules_promote-IsValid s v = record { rules = v.proposed; proposed = v.proposed }

-- The requests that may change the files.
pub data Request : Type 0 where
  add : ApiRule → Request
  delete : Text → Request
  propose : ApiRule → Request
  promote : Request

unfoldable pub handle : State → Request → State
handle s (add r) = (add_rule r s).0
handle s (delete id) = (delete_rule id s).0
handle s (propose r) = (add_rule_proposed r s).0
handle s promote = (rules_promote s).0

unfoldable pub serve : State → List Request → State
serve s [] = s
serve s (q ∷ qs) = serve (handle s q) qs

handle-IsValid : (s : State) (q : Request) → IsValid s → IsValid (handle s q)
unfolding handle
handle-IsValid s (add r) v = add_rule-IsValid r s v
handle-IsValid s (delete id) v = delete_rule-IsValid id s v
handle-IsValid s (propose r) v = add_rule_proposed-IsValid r s v
handle-IsValid s promote v = rules_promote-IsValid s v

-- Whatever requests are served, refused ones among them, neither file ever holds an id twice, if
-- none did at the start.
pub serve-IsValid : (s : State) (qs : List Request) → IsValid s → IsValid (serve s qs)
unfolding serve
serve-IsValid s [] v = v
serve-IsValid s (q ∷ qs) v = serve-IsValid (handle s q) qs (handle-IsValid s q v)

keep-append : (p : ApiRule → Bool) (a b : List ApiRule) → keep p (a ++ b) ≡ keep p a ++ keep p b
keep-append p [] b = refl
keep-append p (x ∷ a) b = elim (Bool-cases (p x)) [
  | inl in_it ↦ rw (in_it, keep-append p a b)
  | inr out ↦ rw (out, keep-append p a b)
]

pub keep_all :
    (id : Text) (rs : List ApiRule)
    → has_id id rs ≡ false
    → keep (λ r. not (text_eq r.id id)) rs ≡ rs
keep_all id [] h = refl
keep_all id (r ∷ rs) h = elim (Bool-cases (text_eq r.id id)) [
  | inl same ↦ absurd (ground (arith, same))
  | inr other ↦ rw other (ap (λ l. r ∷ l) (keep_all id rs (rw other at h)))
]

keep_added :
    (r : ApiRule) (rs : List ApiRule)
    → has_id r.id rs ≡ false
    → keep (λ q. not (text_eq q.id r.id)) (rs ++ r ∷ []) ≡ rs
keep_added r rs free =
    keep-append (λ q. not (text_eq q.id r.id)) rs (r ∷ [])
    ∙ (ap (λ l. l ++ keep (λ q. not (text_eq q.id r.id)) (r ∷ [])) (keep_all r.id rs free)
        ∙ rw (text_eq_refl r.id) (append-nil rs))

-- Deleting a rule that was added under a new id brings back the rules as they were, and the answer
-- is the deleted id.
pub delete_rule-add_rule :
    (r : ApiRule) (s : State)
    → has_id r.id (list_rules s) ≡ false
    → (list_rules (delete_rule r.id (add_rule r s).0).0 ≡ list_rules s)
      × ((delete_rule r.id (add_rule r s).0).1 ≡ ok r.id)
unfolding delete_rule add_rule
delete_rule-add_rule r s free =
    rw (free, keep_added r (list_rules s) free, length-append (list_rules s) (r ∷ []))
      (ground arith, ground arith)

-- A refused request changes nothing: an id that is there cannot be added, one that is not there
-- cannot be deleted.
pub refused_keeps :
    (r : ApiRule) (s : State)
    → ((has_id r.id (list_rules s) ≡ true) × (add_rule r s ≡ (s, http_error 409)))
      ⊎ ((has_id r.id (list_rules s) ≡ false) × (delete_rule r.id s ≡ (s, http_error 404)))
unfolding delete_rule add_rule
refused_keeps r s = elim (Bool-cases (has_id r.id (read s.rules_file))) [
  | inl taken ↦ inl (taken, rw taken)
  | inr free ↦ inr (free, rw (keep_all r.id (list_rules s) free) (ground arith))
]
