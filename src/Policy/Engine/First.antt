-- ===== src/Policy/Engine/First.antt =====
-- `decide` takes the first rule that applies, and allows where there is none.
use sqlum_ai.Common.{
  ◌≡◌, ◌⊎◌, inl, inr, refl, ap, true, false, some, List, [], ◌∷◌, ◌++◌, arith, All, if◌then◌else◌,
  Bool-cases, ◌≢◌,
}
use sqlum_ai.Common.Text.{Text, codes, nonempty, lower, contains, last_part}
use sqlum_ai.Common.Text.Laws.{lower-lower, lower-append, last_part-append}
use sqlum_ai.Policy.Engine.{
  Event, Rule, PolicyEngine, PolicyDecision, decision_of, no_match, decide, decide_from, or_empty,
  by_table, by_column, by_pattern,
}
use sqlum_ai.Policy.Engine.Match.{applies, selects, Applies, applies_iff}

-- One round of the loop of `decide`.
pub decide_step :
    (environment : Text) (r : Rule) (rs : List Rule) (e : Event)
    → decide_from environment (r ∷ rs) e
      ≡ (if applies environment e r then decision_of r else decide_from environment rs e)
unfolding decide_from applies
decide_step environment r rs e = ground arith

-- What `decide` may answer for a list of rules.
abbrev pub Chooses : Text → Event → List Rule → PolicyDecision → Type 0
Chooses environment e rules d =
    ((front : List Rule) × (r : Rule) × (back : List Rule) × (rules ≡ front ++ r ∷ back)
      × All (λ q. ¬ (Applies environment e q)) front
      × Applies environment e r
      × (d ≡ decision_of r))
    ⊎ (All (λ q. ¬ (Applies environment e q)) rules × (d ≡ no_match))

not_applies :
    (environment : Text) (e : Event) (r : Rule)
    → applies environment e r ≡ false
    → ¬ (Applies environment e r)
not_applies environment e r h a = cc (h, (applies_iff environment e r).1 a)

decide_from-Chooses :
    (environment : Text) (rules : List Rule) (e : Event)
    → Chooses environment e rules (decide_from environment rules e)
decide_from-Chooses environment [] e = inr (tt, unfold decide_from in refl)
decide_from-Chooses environment (r ∷ rs) e = elim (Bool-cases (applies environment e r)) [
  | inl yes_it ↦
      inl ([], r, rs, refl, tt, (applies_iff environment e r).0 yes_it, rw (decide_step, yes_it))
  | inr not_it ↦ elim (decide_from-Chooses environment rs e) [
    | inl (front, q, back, split, before, it, d) ↦ inl (
      r ∷ front,
      q,
      back,
      ap (λ l. r ∷ l) split,
      (not_applies environment e r not_it, before),
      it,
      rw (decide_step, not_it) d,
    )
    | inr (nothing, d) ↦
        inr ((not_applies environment e r not_it, nothing), rw (decide_step, not_it) d)
  ]
]

-- `decide` answers with the action, reason, confidence and id of the first rule that is enabled,
-- is for the engine's environment and selects the event; if no rule does, it answers `allow` with
-- no rule id.
pub decide-Chooses : (p : PolicyEngine) (e : Event) → Chooses p.environment e p.rules (decide p e)
unfolding decide
decide-Chooses p e = decide_from-Chooses p.environment p.rules e

-- the event with its names and its statement lowered
abbrev pub lower_event : Event → Event
lower_event e = record e {
  sql_text = some (lower (or_empty e.sql_text));
  table = some (lower (or_empty e.table));
  column = some (lower (or_empty e.column));
}

nonempty-lower : (s : Text) → nonempty (lower s) ≡ nonempty s
unfolding lower
nonempty-lower [] = refl
nonempty-lower (c ∷ s) = refl

selects-lower : (r : Rule) (e : Event) → selects r (lower_event e) ≡ selects r e
unfolding selects by_table by_column by_pattern
selects-lower r e = simp (lower-lower, nonempty-lower)

applies-lower :
    (environment : Text) (r : Rule) (e : Event)
    → applies environment (lower_event e) r ≡ applies environment e r
unfolding applies
applies-lower environment r e = rw (selects-lower r e)

decide_from-lower :
    (environment : Text) (rules : List Rule) (e : Event)
    → decide_from environment rules (lower_event e) ≡ decide_from environment rules e
decide_from-lower environment [] e = unfold decide_from in refl
decide_from-lower environment (r ∷ rs) e =
    rw (decide_step, decide_step, applies-lower environment r e, decide_from-lower environment rs e)

-- The decision does not depend on the case of the event's table, column and statement.
pub decide-lower_event : (p : PolicyEngine) (e : Event) → decide p (lower_event e) ≡ decide p e
unfolding decide
decide-lower_event p e = decide_from-lower p.environment p.rules e

lower-DotFree : (s : Text) → All (λ c. c ≢ b'.') s → All (λ c. c ≢ b'.') (lower s)
unfolding lower
lower-DotFree [] h = tt
lower-DotFree (c ∷ s) (h, hs) = (ground arith, lower-DotFree s hs)

-- the last part of a lowered qualified name
last_part-qualified :
    (u name : Text)
    → All (λ c. c ≢ b'.') name
    → last_part b'.' [] (lower (u ++ b'.' ∷ name)) ≡ last_part b'.' [] (lower name)
last_part-qualified u name h =
    rw lower-append (unfold lower in last_part-append b'.' [] (lower u) (lower name))

abbrev pub at_column : Event → Text → Event
at_column e c = record e { column = some c }

nonempty-qualified : (u name : Text) → nonempty (u ++ b'.' ∷ name) ≡ true
nonempty-qualified [] name = refl
nonempty-qualified (c ∷ u) name = refl

nonempty_of : (s : Text) → s ≢ [] → nonempty s ≡ true
nonempty_of [] h = absurd (h refl)
nonempty_of (c ∷ s) h = refl

module _ (e : Event) (u name : Text) (named : name ≢ []) (free : All (λ c. c ≢ b'.') name) where
  selects-qualified :
      (r : Rule)
      → contains (lower r.selector) (codes ".") ≡ false
      → selects r (at_column e (u ++ b'.' ∷ name)) ≡ selects r (at_column e name)
  unfolding selects by_table by_column by_pattern
  selects-qualified r plain =
      simp
        (plain, nonempty-qualified u name, nonempty_of name named, last_part-qualified u name free)

  decide_from-qualified :
      (environment : Text) (rules : List Rule)
      → All (λ r. contains (lower r.selector) (codes ".") ≡ false) rules
      → decide_from environment rules (at_column e (u ++ b'.' ∷ name))
        ≡ decide_from environment rules (at_column e name)
  decide_from-qualified environment [] h = unfold decide_from in refl
  decide_from-qualified environment (r ∷ rs) (h, hs) =
      simp (decide_step, decide_from-qualified environment rs hs)
        (unfold applies in rw (selects-qualified r h))

  -- Where no selector has a dot, a column is judged by its last part: any qualification in front
  -- of a non-empty name without a dot leaves the decision as it is.
  pub decide-qualified :
      (p : PolicyEngine)
      → All (λ r. contains (lower r.selector) (codes ".") ≡ false) p.rules
      → decide p (at_column e (u ++ b'.' ∷ name)) ≡ decide p (at_column e name)
  unfolding decide
  decide-qualified p h = decide_from-qualified p.environment p.rules h
