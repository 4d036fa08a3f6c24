-- ===== src/Scripts/Validate/Taken.antt =====
-- What the loader takes of a file that the validator was content with.
use sqlum_ai.Common.{
  ℕ, ◌≡◌, ◌⊎◌, refl, ap, true, none, some, List, [], ◌∷◌, arith, All, map, length, Option-cases,
  inl, inr, is_some,
}
use sqlum_ai.Common.Text.{Text, codes}
use sqlum_ai.Common.Dict
use sqlum_ai.Common.Dict.{Dict}
use sqlum_ai.Policy.Loader.{one_of, targets, actions, Entry, load_entry, load_entries}
use sqlum_ai.Scripts.Validate.{
  Json, str, Raw, Verdict, valid, invalid, raised, validate_rule, RuleClass, not_imported, shim,
  pydantic, Rid, made, make_rule, rules, validation_ok, main,
}
use sqlum_ai.Scripts.Validate.Loadable.{
  extra_keys, raw_rule, field_of, text_of, loads_texts, load_entry-validate_rule,
}
use sqlum_ai.Scripts.Validate.Passed.{Accepted, main-rules}

-- The value of a file as the loader sees it.
abbrev pub entry_of : Raw → Entry
entry_of none = Entry.not_object
entry_of (some o) = Entry.object (raw_rule o)

-- An object has no key beside the seven fields of the loader's class.
abbrev pub Plain : Raw → Type 0
Plain none = Unit {0}
Plain (some o) = extra_keys o ≡ []

-- What the types of the class say of the object: texts, and two of them one of three each.
pub record Typed (o : Dict Json) : Type 0 where
  pub id : Text
  pub target : Text
  pub selector : Text
  pub action : Text
  pub has_id : Dict.get (codes "id") o ≡ some (str id)
  pub has_target : Dict.get (codes "target") o ≡ some (str target)
  pub has_selector : Dict.get (codes "selector") o ≡ some (str selector)
  pub has_action : Dict.get (codes "action") o ≡ some (str action)
  pub is_target : one_of target targets ≡ true
  pub is_action : one_of action actions ≡ true

-- A class of rules that tests them: the script's own tests, or pydantic where it makes a rule of no object
-- that is not of the types of the class. The `BaseModel` of src/api.py tests nothing.
abbrev pub Tests : RuleClass → Type 0
Tests not_imported = Unit {0}
Tests shim = ⊥
Tests (pydantic make) = (o : Dict Json) (id : Text) → make o ≡ some id → Typed o

Verdict-valid :
    (r : Raw) (rid : Rid) → make_rule not_imported r ≡ made rid → validate_rule r ≡ valid
unfolding make_rule
Verdict-valid r rid h = elim (cases (validate_rule r)) [
  | inl e ↦ e
  | inr (inl (m, e)) ↦ absurd (cc (rw (make_rule, e) at h))
  | inr (inr e) ↦ absurd (cc (rw (make_rule, e) at h))
]
  where
    cases : (v : Verdict) → (v ≡ valid) ⊎ (((m : Text) × (v ≡ invalid m)) ⊎ (v ≡ raised))
    cases valid = inl refl
    cases (invalid m) = inr (inl (m, refl))
    cases raised = inr (inr refl)

loads-Typed :
    (o : Dict Json)
    → Typed o
    → extra_keys o ≡ []
    → is_some (load_entry (Entry.object (raw_rule o))) ≡ true
loads-Typed o t plain =
    loads_texts (raw_rule o) t.id t.target t.selector t.action (ap text_of t.has_id)
      (ap field_of t.has_target) (ap field_of t.has_selector) (ap field_of t.has_action) plain
      t.is_target t.is_action

loads_one :
    (cls : RuleClass) (r : Raw) (rid : Rid)
    → Tests cls
    → make_rule cls r ≡ made rid
    → Plain r
    → is_some (load_entry (entry_of r)) ≡ true
unfolding make_rule validate_rule
loads_one not_imported none rid t h p = absurd (cc h)
loads_one not_imported (some o) rid t h p =
    load_entry-validate_rule o (Verdict-valid (some o) rid h) p
loads_one (pydantic make) none rid t h p = absurd (cc h)
loads_one (pydantic make) (some o) rid t h p = elim (Option-cases (make o)) [
  | inl (id, e) ↦ loads-Typed o (t o id e) p
  | inr e ↦ absurd (cc (rw (make_rule, e) at h))
]
loads_one shim r rid t h p = absurd t

length-load_entries :
    (cls : RuleClass) (seen : List Rid) (raws : List Raw)
    → Tests cls
    → Accepted cls seen raws
    → All Plain raws
    → length (load_entries (map entry_of raws)) ≡ length raws
unfolding load_entries
length-load_entries cls seen [] t h p = refl
length-load_entries cls seen (r ∷ raws) t (rid, e, ok, fresh, h) (q, p) =
    elim (Option-cases (load_entry (entry_of r))) [
      | inl (rule, l) ↦
          rw (load_entries, l) (omega (arith, length-load_entries cls (rid ∷ seen) raws t h p))
      | inr l ↦ absurd (cc (rw l at (loads_one cls r rid t e q)))
    ]

-- The loader takes as many rules from a file as the validator has printed, if it was content with the file,
-- no rule has a key beside the seven fields of the loader's class, and the class of rules tests them: the
-- script's own tests, or pydantic where it holds to the types of the class.
pub load_entries-main :
    (cls : RuleClass) (raws : List Raw) (n : ℕ)
    → Tests cls
    → main cls (rules raws) ≡ validation_ok n
    → All Plain raws
    → length (load_entries (map entry_of raws)) ≡ n
load_entries-main cls raws n t h p =
    let (accepted, printed) = main-rules cls raws n h in
    omega (arith, length-load_entries cls [] raws t accepted p, printed)
