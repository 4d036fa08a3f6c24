-- ===== src/Policy/Loader/Sound.antt =====
-- What `load_rules` keeps, and what becomes of it in the engine.
use sqlum_ai.Common.{
  ◌≡◌, ◌≢◌, ◌⊎◌, inl, inr, refl, true, false, none, some, List, [], ◌∷◌, ◌++◌, arith, Bool-cases,
  Option-cases,
}
use sqlum_ai.Common.Text.{Text, codes, text_eq, lower}
use sqlum_ai.Common.Text.Laws.{text_eq_iff, text_eq-false}
use sqlum_ai.Common.Dict.{get_or}
use sqlum_ai.Policy.Engine.{
  one_point_zero, Rule, Event, decide_from, by_table, by_column, by_pattern,
}
use sqlum_ai.Policy.Engine.First.{decide_step}
use sqlum_ai.Policy.Engine.Match.{selects, applies}
use sqlum_ai.Policy.Loader.{
  Field, text, RawRule, Entry, object, not_object, lowered, targets, actions, one_of, build,
  build_fields, load_entry, load_entries,
}

abbrev pub OneOf : Text → List Text → Type 0
OneOf s [] = ⊥
OneOf s (t ∷ ts) = (s ≡ t) ⊎ OneOf s ts

pub one_of-OneOf : (s : Text) (ts : List Text) → one_of s ts ≡ true → OneOf s ts
one_of-OneOf s [] h = cc
one_of-OneOf s (t ∷ ts) h = elim (Bool-cases (text_eq s t)) [
  | inl here ↦ inl ((text_eq_iff s t).0 here)
  | inr later ↦ inr (one_of-OneOf s ts (rw later at h))
]

OneOf-one_of : (s : Text) (ts : List Text) → OneOf s ts → one_of s ts ≡ true
OneOf-one_of s [] h = absurd h
OneOf-one_of s (t ∷ ts) (inl h) = rw ((text_eq_iff s t).1 h) refl
OneOf-one_of s (t ∷ ts) (inr h) = ground (arith, OneOf-one_of s ts h)

-- An entry is loaded as the rule `r`: an object with an id and no key that the dataclass lacks,
-- whose target, selector and action are texts, the first and the last known in some case.
pub record LoadsAs (raw : RawRule) (r : Rule) : Type 0 where
  pub target : raw.target ≡ text r.target
  pub selector : raw.selector ≡ text r.selector
  pub action : raw.action ≡ text r.action
  pub id : raw.id ≡ some r.id
  pub known_target : OneOf (lower r.target) targets
  pub known_action : OneOf (lower r.action) actions
  pub no_extras : raw.extras ≡ []
  pub rest :
      (r.reason ≡ get_or [] raw.reason)
      × (r.confidence ≡ get_or one_point_zero raw.confidence)
      × (r.enabled ≡ get_or true raw.enabled)
      × (r.apply_in_envs ≡ none)
      × (r.min_hits_to_enforce ≡ none)

build_sound :
    (raw : RawRule) (t s a : Text) (r : Rule)
    → build raw t s a ≡ some r
    → (r.target ≡ t)
      × (r.selector ≡ s)
      × (r.action ≡ a)
      × (raw.id ≡ some r.id)
      × (raw.extras ≡ [])
      × (r.reason ≡ get_or [] raw.reason)
      × (r.confidence ≡ get_or one_point_zero raw.confidence)
      × (r.enabled ≡ get_or true raw.enabled)
      × (r.apply_in_envs ≡ none)
      × (r.min_hits_to_enforce ≡ none)
unfolding build
build_sound raw t s a r h = ground arith

texts_of :
    (raw : RawRule) (f g h : Field) (r : Rule)
    → build_fields raw f g h ≡ some r
    → (t : Text) × (s : Text) × (a : Text) × (f ≡ text t)
      × (g ≡ text s)
      × (h ≡ text a)
      × (build raw t s a ≡ some r)
unfolding build_fields
texts_of raw (text t) (text s) (text a) r e = (t, s, a, refl, refl, refl, e)
texts_of raw f g h r e = cc

checked :
    (raw : RawRule) (r : Rule)
    → load_entry (object raw) ≡ some r
    → (tgt : Text) × (act : Text) × (lowered raw.target ≡ some tgt)
      × (lowered raw.action ≡ some act)
      × (one_of tgt targets ≡ true)
      × (one_of act actions ≡ true)
      × (build_fields raw raw.target raw.selector raw.action ≡ some r)
unfolding load_entry
checked raw r h = elim (Option-cases (lowered raw.target)) [
  | inr none_t ↦ ground (arith, none_t)
  | inl (tgt, et) ↦ elim (Option-cases (lowered raw.action)) [
    | inr none_a ↦ ground (arith, et, none_a)
    | inl (act, ea) ↦
        (tgt, act, et, ea, ground (arith, et, ea), ground (arith, et, ea), ground (arith, et, ea))
  ]
]

lowered-text : (f : Field) (t tgt : Text) → f ≡ text t → lowered f ≡ some tgt → tgt ≡ lower t
unfolding lowered
lowered-text f t tgt e h = ground arith

load_entry-LoadsAs : (raw : RawRule) (r : Rule) → load_entry (object raw) ≡ some r → LoadsAs raw r
load_entry-LoadsAs raw r h =
    let (tgt, act, et, ea, known_t, known_a, b) = checked raw r h in
    let (t, s, a, ft, fs, fa, built) = texts_of raw raw.target raw.selector raw.action r b in
    let (rt, rs, ra, rid, rx, r1, r2, r3, r4, r5) = build_sound raw t s a r built in
    record {
      target = rw rt ft;
      selector = rw rs fs;
      action = rw ra fa;
      id = rid;
      known_target =
          rw (rt, ← lowered-text raw.target t tgt ft et) (one_of-OneOf tgt targets known_t);
      known_action =
          rw (ra, ← lowered-text raw.action a act fa ea) (one_of-OneOf act actions known_a);
      no_extras = rx;
      rest = (r1, r2, r3, r4, r5);
    }

build_complete :
    (raw : RawRule) (r : Rule) → LoadsAs raw r → build raw r.target r.selector r.action ≡ some r
unfolding build
build_complete raw r l =
    let (r1, r2, r3, r4, r5) = l.rest in ground (arith, r1, r2, r3, r4, r5, l.id, l.no_extras)

LoadsAs-load_entry : (raw : RawRule) (r : Rule) → LoadsAs raw r → load_entry (object raw) ≡ some r
unfolding load_entry
LoadsAs-load_entry raw r l =
    rw
      (
        l.target,
        l.action,
        l.selector,
        OneOf-one_of (lower r.target) targets l.known_target,
        OneOf-one_of (lower r.action) actions l.known_action,
      )
      (build_complete raw r l)

-- The loaded rules, in the order of the file: an entry is passed over unless it loads as a rule.
pub data Loads : List Entry → List Rule → Type 0 where
  done : Loads [] []
  keep :
      {raw : RawRule} {r : Rule} {es : List Entry} {rs : List Rule}
      → LoadsAs raw r
      → Loads es rs
      → Loads (object raw ∷ es) (r ∷ rs)
  skip :
      {e : Entry} {es : List Entry} {rs : List Rule}
      → ((raw : RawRule) (r : Rule) → e ≡ object raw → ¬ (LoadsAs raw r))
      → Loads es rs
      → Loads (e ∷ es) rs

-- Loading a list of entries keeps, in order, exactly those that are objects with an id, with text
-- target, selector and action, a known target and action in any letter case, and no key that the
-- rule class lacks; each is kept as the rule of its fields with the defaults for the absent ones.
pub load_entries-Loads : (es : List Entry) → Loads es (load_entries es)
unfolding load_entries
load_entries-Loads [] = done
load_entries-Loads (not_object ∷ es) = skip (λ raw r e. ground arith) (load_entries-Loads es)
load_entries-Loads (object raw ∷ es) = elim (Option-cases (load_entry (object raw))) [
  | inl (r, e) ↦ rw (load_entries, e) (keep (load_entry-LoadsAs raw r e) (load_entries-Loads es))
  | inr e ↦ rw (load_entries, e) (skip (refused e) (load_entries-Loads es))
]
  where
    refused :
        load_entry (object raw) ≡ none
        → (raw' : RawRule) (r : Rule) → object raw ≡ object raw'
        → ¬ (LoadsAs raw' r)
    refused e raw' r q l = cc (e, q, LoadsAs-load_entry raw' r l)

-- A key that the rule class lacks, such as `apply_in_envs` or `min_hits_to_enforce`, drops the
-- entry, whatever else it holds.
pub load_entries_extras :
    (front : List Entry) (raw : RawRule) (back : List Entry)
    → raw.extras ≢ []
    → load_entries (front ++ object raw ∷ back) ≡ load_entries (front ++ back)
unfolding load_entries
load_entries_extras [] raw back h = elim (Option-cases (load_entry (object raw))) [
  | inl (r, e) ↦ absurd (h (load_entry-LoadsAs raw r e).no_extras)
  | inr e ↦ rw (load_entries, e)
]
load_entries_extras (e ∷ front) raw back h = ground (arith, load_entries_extras front raw back h)

known-false : (t known : Text) → t ≢ lower t → known ≡ lower known → text_eq t known ≡ false
known-false t known upper fixed = text_eq-false t known (λ e. upper (rw e fixed))

selects_upper : (r : Rule) (e : Event) → r.target ≢ lower r.target → selects r e ≡ false
unfolding selects by_table by_column by_pattern lower
selects_upper r e upper = rw (
  known-false r.target (codes "table") upper refl,
  known-false r.target (codes "column") upper refl,
  known-false r.target (codes "pattern") upper refl,
)

-- A rule that the loader takes although its target is not in lower case changes no decision: the
-- engine decides as if the rule were not there.
pub decide_without_upper :
    (environment : Text) (front : List Rule) (raw : RawRule) (r : Rule) (back : List Rule)
    (e : Event)
    → load_entry (object raw) ≡ some r
    → r.target ≢ lower r.target
    → decide_from environment (front ++ r ∷ back) e ≡ decide_from environment (front ++ back) e
decide_without_upper environment [] raw r back e h upper =
    rw decide_step (unfold applies in rw (selects_upper r e upper) (ground arith))
decide_without_upper environment (q ∷ front) raw r back e h upper =
    simp (decide_step, decide_without_upper environment front raw r back e h upper)
