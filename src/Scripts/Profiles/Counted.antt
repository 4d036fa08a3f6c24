-- ===== src/Scripts/Profiles/Counted.antt =====
-- What the profiles count, and what they never count.
use sqlum_ai.Common.{
  ℕ, ◌+◌, ◌≡◌, refl, ◌∙◌, ap, Option, none, some, List, [], ◌∷◌, arith, if◌then◌else◌, Bool-cases,
  Option-cases, inl, inr, subst,
}
use sqlum_ai.Common.Text.{Text, text_eq, nonempty, strip}
use sqlum_ai.Common.Text.Laws.{text_eq_iff}
use sqlum_ai.Common.Dict
use sqlum_ai.Common.Dict.{Dict, get_or, get-put, get-empty}
use sqlum_ai.Policy.Engine.{or_empty}
use sqlum_ai.Proxy.State.{Suggestion}
use sqlum_ai.Scripts.Profiles.Extract.{extract_columns, extract_values}
use sqlum_ai.Scripts.Profiles.{
  Profile, Profiles, SelectUse, profile_at, profile_key, count_column, count_suggestion,
  count_columns, count_values, count_suggestions, profile_event, profile_events, aggregate,
}

-- How many of the columns have this key.
unfoldable pub columns_under : Text → List (Text × Text) → ℕ
columns_under key [] = 0
columns_under key ((table, col) ∷ cols) =
    (if text_eq (profile_key table col) key then 1 else 0) + columns_under key cols

-- How many columns of the events' statements have this key.
unfoldable pub named : Text → List (Option (Option Text)) → ℕ
unfolding columns_under
named key [] = 0
named key (none ∷ es) = named key es
named key (some raw ∷ es) =
    columns_under key (extract_columns (strip (or_empty raw))) + named key es

-- The entry has counted `n` columns, no null and no value.
abbrev pub HasCounted : ℕ → Profile → Type 0
HasCounted n p = (p.occurs ≡ n) × (p.nulls ≡ 0) × (p.values ≡ [])

profile_at-count_column :
    (key k : Text) (n : ℕ) (ps : Profiles)
    → HasCounted n (profile_at key ps)
    → HasCounted (n + (if text_eq k key then 1 else 0)) (profile_at key (count_column k ps))
unfolding count_column
profile_at-count_column key k n ps (ho, hn, hv) = elim (Bool-cases (text_eq k key)) [
  | inr other ↦ rw (get-put, other) (omega (arith, ho), hn, hv)
  | inl same ↦
      let e = (text_eq_iff k key).0 same in
      rw (get-put, same)
        (
          omega (arith, ap (λ z. (profile_at z ps).occurs) e, ho),
          ap (λ z. (profile_at z ps).nulls) e ∙ hn,
          ap (λ z. (profile_at z ps).values) e ∙ hv,
        )
]

profile_at-count_suggestion :
    (key k kind : Text) (n : ℕ) (ps : Profiles)
    → HasCounted n (profile_at key ps)
    → HasCounted n (profile_at key (count_suggestion k kind ps))
unfolding count_suggestion
profile_at-count_suggestion key k kind n ps (ho, hn, hv) = elim (Bool-cases (text_eq k key)) [
  | inr other ↦ rw (get-put, other) (ho, hn, hv)
  | inl same ↦
      let e = (text_eq_iff k key).0 same in
      rw (get-put, same)
        (
          ap (λ z. (profile_at z ps).occurs) e ∙ ho,
          ap (λ z. (profile_at z ps).nulls) e ∙ hn,
          ap (λ z. (profile_at z ps).values) e ∙ hv,
        )
]

profile_at-count_columns :
    (key : Text) (cols : List (Text × Text)) (n : ℕ) (ps : Profiles)
    → HasCounted n (profile_at key ps)
    → HasCounted (n + columns_under key cols) (profile_at key (count_columns cols ps))
unfolding count_columns columns_under
profile_at-count_columns key [] n ps h =
    subst (λ m. HasCounted m (profile_at key ps)) (omega arith) h
profile_at-count_columns key ((table, col) ∷ cols) n ps h =
    subst (λ m. HasCounted m (profile_at key (count_columns ((table, col) ∷ cols) ps)))
      (omega arith)
      (profile_at-count_columns key cols
        (n + (if text_eq (profile_key table col) key then 1 else 0))
        (count_column (profile_key table col) ps)
        (profile_at-count_column key (profile_key table col) n ps h))

module _ (suggest : Text → Option Suggestion) where
  profile_at-count_values :
      (key table : Text) (values : List (Text × Text)) (n : ℕ) (ps : Profiles)
      → HasCounted n (profile_at key ps)
      → HasCounted n (profile_at key (count_values suggest table values ps))
  unfolding count_values
  profile_at-count_values key table [] n ps h = h
  profile_at-count_values key table ((col, val) ∷ values) n ps h =
      elim (Option-cases (suggest val)) [
        | inr e ↦ rw (count_values, e) (profile_at-count_values key table values n ps h)
        | inl (s, e) ↦
            rw (count_values, e)
              (profile_at-count_values key table values n
                (count_suggestion (profile_key table col) s.kind ps)
                (profile_at-count_suggestion key (profile_key table col) s.kind n ps h))
      ]

  profile_at-count_suggestions :
      (key : Text) (cols values : List (Text × Text)) (n : ℕ) (ps : Profiles)
      → HasCounted n (profile_at key ps)
      → HasCounted n (profile_at key (count_suggestions suggest cols values ps))
  unfolding count_suggestions
  profile_at-count_suggestions key [] values n ps h = h
  profile_at-count_suggestions key ((table, col) ∷ cols) values n ps h =
      elim (Bool-cases (nonempty table)) [
        | inl e ↦ rw (count_suggestions, e) (profile_at-count_values key table values n ps h)
        | inr e ↦ rw (count_suggestions, e) h
      ]

  profile_at-profile_events :
      (key : Text) (es : List (Option (Option Text))) (n : ℕ) (acc : Profiles × Dict SelectUse)
      → HasCounted n (profile_at key acc.0)
      → HasCounted (n + named key es) (profile_at key (profile_events suggest es acc).0)
  unfolding profile_events named profile_event
  profile_at-profile_events key [] n acc h =
      subst (λ m. HasCounted m (profile_at key acc.0)) (omega arith) h
  profile_at-profile_events key (none ∷ es) n acc h = profile_at-profile_events key es n acc h
  profile_at-profile_events key (some raw ∷ es) n acc h =
      let sql = strip (or_empty raw) in
      let cols = extract_columns sql in
      subst (λ m. HasCounted m (profile_at key (profile_events suggest (some raw ∷ es) acc).0))
        (omega arith)
        (profile_at-profile_events key es (n + columns_under key cols)
          (profile_event suggest raw acc)
          (profile_at-count_suggestions key cols (extract_values sql) (n + columns_under key cols)
            (count_columns cols acc.0) (profile_at-count_columns key cols n acc.0 h)))

  -- The profile of a column counts how often the recorded INSERTs and UPDATEs name it; whatever the
  -- events are, it counts no null and holds no value.
  pub aggregate-HasCounted :
      (key : Text) (es : List (Option (Option Text)))
      → HasCounted (named key es) (profile_at key (aggregate suggest es).0)
  unfolding aggregate
  aggregate-HasCounted key es =
      subst (λ n. HasCounted n (profile_at key (aggregate suggest es).0)) (omega arith)
        (profile_at-profile_events key es 0 ([], []) start)
    where
      start : HasCounted 0 (profile_at key [])
      start = unfold Dict.get in (refl, refl, refl)
