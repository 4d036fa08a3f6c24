-- ===== src/Scripts/Validate/Loadable.antt =====
-- What the loader makes of a rule that passes the validator's own tests.
use sqlum_ai.Common.{
  ◌==◌, ◌≡◌, inl, inr, refl, sym, ap, subst, Bool, true, false, not, Option, none, some,
  some-injective, List, [], ◌∷◌, is_some, if◌then◌else◌,
}
use sqlum_ai.Common.Text.{Text, codes, lower}
use sqlum_ai.Common.Dict
use sqlum_ai.Common.Dict.{Dict, get_or}
use sqlum_ai.Policy.Loader.{
  Field, absent, text, other, RawRule, Entry, lowered, targets, actions, one_of, build,
  build_fields, load_entry,
}
use sqlum_ai.Policy.Engine.{Number}
use sqlum_ai.Policy.Loader.Sound.{one_of-OneOf}
use sqlum_ai.Scripts.Validate.{
  Json, null, bool, int, float, str, list, Verdict, valid, is_name, is_among, tested, tested_in_set,
  validate_rule,
}

-- the truth of a value that is neither text nor null
abbrev truth : Json → Bool
truth (bool b) = b
truth (int n) = not (n == 0)
truth (float x) = not (x.units == 0)
truth (list []) = false
truth _ = true

-- What the loader finds under a key that it checks.
abbrev pub field_of : Option Json → Field
field_of none = absent
field_of (some null) = Field.null
field_of (some (str s)) = text s
field_of (some j) = other (truth j)

abbrev pub text_of : Option Json → Option Text
text_of (some (str s)) = some s
text_of _ = none

abbrev pub flag_of : Option Json → Option Bool
flag_of (some (bool b)) = some b
flag_of _ = none

abbrev pub number_of : Option Json → Option Number
number_of (some (float x)) = some x
number_of (some (int n)) = some (record { negative = false; units = n; scale = 0 })
number_of _ = none

abbrev pub rule_fields : List Text
rule_fields =
    codes "id"
    ∷ codes "target"
    ∷ codes "selector"
    ∷ codes "action"
    ∷ codes "reason"
    ∷ codes "confidence"
    ∷ codes "enabled"
    ∷ []

-- The keys that the loader's class has no field for.
abbrev pub extra_keys : Dict Json → List Text
extra_keys [] = []
extra_keys ((k, v) ∷ o) = if one_of k rule_fields then extra_keys o else k ∷ extra_keys o

-- The object as the loader sees it.
abbrev pub raw_rule : Dict Json → RawRule
raw_rule o = record {
  id = text_of (Dict.get (codes "id") o);
  target = field_of (Dict.get (codes "target") o);
  selector = field_of (Dict.get (codes "selector") o);
  action = field_of (Dict.get (codes "action") o);
  reason = text_of (Dict.get (codes "reason") o);
  confidence = number_of (Dict.get (codes "confidence") o);
  enabled = flag_of (Dict.get (codes "enabled") o);
  extras = extra_keys o;
}

tested_valid : (b : Bool) (m : Text) (r : Verdict) → tested b m r ≡ valid → (b ≡ true) × (r ≡ valid)
tested_valid true m r h = (refl, h)
tested_valid false m r h = cc

set_valid :
    (b : Option Bool) (m : Text) (r : Verdict)
    → tested_in_set b m r ≡ valid
    → (b ≡ some true) × (r ≡ valid)
set_valid none m r h = cc
set_valid (some true) m r h = (refl, h)
set_valid (some false) m r h = cc

name_text : (j : Option Json) → is_name (get_or null j) ≡ true → (s : Text) × (j ≡ some (str s))
unfolding is_name
name_text none h = cc
name_text (some (str s)) h = (s, refl)
name_text (some j) h = cc

among_text :
    (allowed : List Text) (j : Option Json)
    → is_among allowed (get_or null j) ≡ some true
    → (s : Text) × (j ≡ some (str s)) × (one_of s allowed ≡ true)
unfolding is_among
among_text allowed none h = cc
among_text allowed (some (str s)) h = (s, refl, some-injective _ _ h)
among_text allowed (some j) h = cc

lower_target : (s : Text) → one_of s targets ≡ true → lower s ≡ s
unfolding lower
lower_target s h = elim (one_of-OneOf s targets h) [
  | inl e ↦ subst (λ t. lower t ≡ t) (sym e) refl
  | inr (inl e) ↦ subst (λ t. lower t ≡ t) (sym e) refl
  | inr (inr (inl e)) ↦ subst (λ t. lower t ≡ t) (sym e) refl
  | inr (inr (inr none_of)) ↦ absurd none_of
]

lower_action : (s : Text) → one_of s actions ≡ true → lower s ≡ s
unfolding lower
lower_action s h = elim (one_of-OneOf s actions h) [
  | inl e ↦ subst (λ t. lower t ≡ t) (sym e) refl
  | inr (inl e) ↦ subst (λ t. lower t ≡ t) (sym e) refl
  | inr (inr (inl e)) ↦ subst (λ t. lower t ≡ t) (sym e) refl
  | inr (inr (inr none_of)) ↦ absurd none_of
]

pub loads_texts :
    (raw : RawRule) (i t s a : Text)
    → raw.id ≡ some i
    → raw.target ≡ text t
    → raw.selector ≡ text s
    → raw.action ≡ text a
    → raw.extras ≡ []
    → one_of t targets ≡ true
    → one_of a actions ≡ true
    → is_some (load_entry (Entry.object raw)) ≡ true
unfolding load_entry lowered build_fields build
loads_texts raw i t s a hi ht hs ha hx kt ka =
    rw (ht, ha, hs, lower_target t kt, lower_action a ka, kt, ka, hx, hi)

-- A rule that passes the validator's tests, and has no key beside the seven fields of the loader's
-- class, is not passed over by the loader.
pub load_entry-validate_rule :
    (o : Dict Json)
    → validate_rule (some o) ≡ valid
    → extra_keys o ≡ []
    → is_some (load_entry (Entry.object (raw_rule o))) ≡ true
unfolding validate_rule
load_entry-validate_rule o h plain =
    let (hid, h1) = tested_valid _ _ _ h in
    let (htarget, h2) = set_valid _ _ _ h1 in
    let (hselector, h3) = tested_valid _ _ _ h2 in
    let (haction, h4) = set_valid _ _ _ h3 in
    let (i, ei) = name_text (Dict.get (codes "id") o) hid in
    let (t, et, kt) = among_text targets (Dict.get (codes "target") o) htarget in
    let (s, es) = name_text (Dict.get (codes "selector") o) hselector in
    let (a, ea, ka) = among_text actions (Dict.get (codes "action") o) haction in
    loads_texts (raw_rule o) i t s a (ap text_of ei) (ap field_of et) (ap field_of es)
      (ap field_of ea) plain kt ka
