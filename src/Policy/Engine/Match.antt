-- ===== src/Policy/Engine/Match.antt =====
-- When a rule applies to an event, said without the program's tests.
use sqlum_ai.Common.{
  ◌≡◌, ◌≢◌, ◌↔◌, ◌⊎◌, inl, inr, refl, Bool, true, false, not, ◌&&◌, ◌||◌, Option, none, some, List,
  [], ◌∷◌, ◌++◌, arith, any, Bool-cases,
}
use sqlum_ai.Common.Text.{Text, codes, text_eq, nonempty, lower, contains, lstrip_by, last_part}
use sqlum_ai.Common.Text.Laws.{text_eq_iff, contains→split, contains-split}
use sqlum_ai.Policy.Engine.{
  Event, Rule, or_empty, out_of_env, is_at, by_table, by_column, by_pattern,
}

-- The rule is on, and it is not bound to other environments.
unfoldable pub active : Text → Rule → Bool
active environment r = r.enabled && not (out_of_env environment r.apply_in_envs)

unfoldable pub selects : Rule → Event → Bool
selects r e = by_table r e || by_column r e || by_pattern r e

unfoldable pub applies : Text → Event → Rule → Bool
unfolding active selects
applies environment e r = active environment r && selects r e

-- Some text of the list, lowered, is the environment.
abbrev pub Lists : Text → List Text → Type 0
Lists environment [] = ⊥
Lists environment (x ∷ xs) = (lower x ≡ environment) ⊎ Lists environment xs

abbrev pub ForEnv : Text → Option (List Text) → Type 0
ForEnv environment none = Unit {0}
ForEnv environment (some []) = Unit {0}
ForEnv environment (some (x ∷ xs)) = (environment ≡ []) ⊎ Lists environment (x ∷ xs)

-- What each target selects.
abbrev pub Selects : Rule → Event → Type 0
Selects r e =
    ((r.target ≡ codes "table")
      × (or_empty e.table ≢ [])
      × (lower r.selector ≡ lower (or_empty e.table)))
    ⊎ ((r.target ≡ codes "column")
        × (or_empty e.column ≢ [])
        × (((contains (lower r.selector) (codes ".") ≡ true)
              × (lower r.selector ≡ lower (or_empty e.column)))
            ⊎ ((contains (lower r.selector) (codes ".") ≡ false)
                × (lstrip_by is_at (lower r.selector)
                    ≡ lstrip_by is_at (last_part b'.' [] (lower (or_empty e.column)))))))
    ⊎ ((r.target ≡ codes "pattern")
        × (or_empty e.sql_text ≢ [])
        × ((u : Text) × (v : Text) × (lower (or_empty e.sql_text) ≡ u ++ (lower r.selector ++ v))))

any-Lists :
    (environment : Text) (xs : List Text)
    → any (λ x. text_eq (lower x) environment) xs ≡ true
    → Lists environment xs
any-Lists environment [] h = cc
any-Lists environment (x ∷ xs) h = elim (Bool-cases (text_eq (lower x) environment)) [
  | inl here ↦ inl ((text_eq_iff _ _).0 here)
  | inr later ↦ inr (any-Lists environment xs (rw later at h))
]

Lists-any :
    (environment : Text) (xs : List Text)
    → Lists environment xs
    → any (λ x. text_eq (lower x) environment) xs ≡ true
Lists-any environment [] h = absurd h
Lists-any environment (x ∷ xs) (inl h) = rw ((text_eq_iff _ _).1 h) refl
Lists-any environment (x ∷ xs) (inr h) = ground (arith, Lists-any environment xs h)

nonempty-ne : (s : Text) → (nonempty s ≡ true) ↔ (s ≢ [])
nonempty-ne [] = (λ h. cc, λ h. absurd (h refl))
nonempty-ne (c ∷ s) = (λ h e. cc, λ h. refl)

out_of_env_iff :
    (environment : Text) (o : Option (List Text))
    → (out_of_env environment o ≡ false) ↔ ForEnv environment o
unfolding out_of_env
out_of_env_iff environment none = (λ h. tt, λ h. refl)
out_of_env_iff environment (some []) = (λ h. tt, λ h. refl)
out_of_env_iff [] (some (x ∷ xs)) = (λ h. inl refl, λ h. refl)
out_of_env_iff (c ∷ s) (some (x ∷ xs)) = (
  λ h. inr (any-Lists (c ∷ s) (x ∷ xs) (ground arith)),
  elim [ inl h ↦ cc | inr h ↦ rw (Lists-any (c ∷ s) (x ∷ xs) h) ],
)

&&-true : (a b : Bool) → (a && b ≡ true) ↔ ((a ≡ true) × (b ≡ true))
&&-true a b = (λ h. (ground arith, ground arith), λ h. ground arith)

-- The rule is active exactly if it is enabled and for the environment.
pub active_iff :
    (environment : Text) (r : Rule)
    → (active environment r ≡ true) ↔ ((r.enabled ≡ true) × ForEnv environment r.apply_in_envs)
unfolding active
active_iff environment r =
    let env = out_of_env_iff environment r.apply_in_envs in
    (λ h. (ground arith, env.0 (ground arith)), λ h. rw (h.0, env.1 h.1))

by_table_iff :
    (r : Rule) (e : Event)
    → (by_table r e ≡ true) ↔ (
        (r.target ≡ codes "table")
        × (or_empty e.table ≢ [])
        × (lower r.selector ≡ lower (or_empty e.table)))
unfolding by_table
by_table_iff r e = (
  λ h. (
    (text_eq_iff _ _).0 (ground arith),
    (nonempty-ne _).0 (ground arith),
    (text_eq_iff _ _).0 (ground arith),
  ),
  λ h. rw ((text_eq_iff _ _).1 h.0, (nonempty-ne _).1 h.1) ((text_eq_iff _ _).1 h.2),
)

by_pattern_iff :
    (r : Rule) (e : Event)
    → (by_pattern r e ≡ true) ↔ (
        (r.target ≡ codes "pattern")
        × (or_empty e.sql_text ≢ [])
        × ((u : Text) × (v : Text) × (lower (or_empty e.sql_text) ≡ u ++ (lower r.selector ++ v))))
unfolding by_pattern
by_pattern_iff r e = (
  λ h. (
    (text_eq_iff _ _).0 (ground arith),
    (nonempty-ne _).0 (ground arith),
    contains→split _ _ (ground arith),
  ),
  λ h.
      let (u, v, q) = h.2 in
      rw ((text_eq_iff _ _).1 h.0, (nonempty-ne _).1 h.1, q)
        (contains-split u (lower r.selector) v),
)

by_column_iff :
    (r : Rule) (e : Event)
    → (by_column r e ≡ true) ↔ (
        (r.target ≡ codes "column")
        × (or_empty e.column ≢ [])
        × (((contains (lower r.selector) (codes ".") ≡ true)
              × (lower r.selector ≡ lower (or_empty e.column)))
            ⊎ ((contains (lower r.selector) (codes ".") ≡ false)
                × (lstrip_by is_at (lower r.selector)
                    ≡ lstrip_by is_at (last_part b'.' [] (lower (or_empty e.column)))))))
unfolding by_column
by_column_iff r e = (
  λ h. (
    (text_eq_iff _ _).0 (ground arith),
    (nonempty-ne _).0 (ground arith),
    elim (Bool-cases (contains (lower r.selector) (codes "."))) [
      | inl dot ↦ inl (dot, (text_eq_iff _ _).0 (ground arith))
      | inr plain ↦ inr (plain, (text_eq_iff _ _).0 (ground arith))
    ],
  ),
  λ h.
      rw ((text_eq_iff _ _).1 h.0, (nonempty-ne _).1 h.1)
        (elim h.2 [
          | inl x ↦ rw x.0 ((text_eq_iff _ _).1 x.1)
          | inr x ↦ rw x.0 ((text_eq_iff _ _).1 x.1)
        ]),
)

-- The three tests select exactly what the targets mean.
pub selects_iff : (r : Rule) (e : Event) → (selects r e ≡ true) ↔ Selects r e
unfolding selects
selects_iff r e = (
  λ h. elim (Bool-cases (by_table r e)) [
    | inl t ↦ inl ((by_table_iff r e).0 t)
    | inr not_t ↦ elim (Bool-cases (by_column r e)) [
      | inl c ↦ inr (inl ((by_column_iff r e).0 c))
      | inr not_c ↦ inr (inr ((by_pattern_iff r e).0 (ground arith)))
    ]
  ],
  elim [
    | inl t ↦ rw ((by_table_iff r e).1 t)
    | inr (inl c) ↦ let q = (by_column_iff r e).1 c in ground arith
    | inr (inr t) ↦ let q = (by_pattern_iff r e).1 t in ground arith
  ],
)

abbrev pub Applies : Text → Event → Rule → Type 0
Applies environment e r = (r.enabled ≡ true) × ForEnv environment r.apply_in_envs × Selects r e

pub applies_iff :
    (environment : Text) (e : Event) (r : Rule)
    → (applies environment e r ≡ true) ↔ Applies environment e r
unfolding applies
applies_iff environment e r = (
  λ h.
      let a = (active_iff environment r).0 (ground arith) in
      (a.0, a.1, (selects_iff r e).0 (ground arith)),
  λ h. rw ((active_iff environment r).1 (h.0, h.1), (selects_iff r e).1 h.2),
)
