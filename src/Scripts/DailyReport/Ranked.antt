-- ===== src/Scripts/DailyReport/Ranked.antt =====
-- What the ranking of missing values is worth on the profiles that are aggregated.
use sqlum_ai.Common.{
  ℕ, ◌≡◌, refl, ap, ◌∙◌, Option, none, some, List, [], ◌∷◌, take, ltb, All, arith, Bool-cases,
  Option-cases, inl, inr,
}
use sqlum_ai.Common.Text.{Text, text_eq, nonempty, strip}
use sqlum_ai.Common.Dict
use sqlum_ai.Common.Dict.{Dict, get_or}
use sqlum_ai.Common.Show.{insert, sorted}
use sqlum_ai.Policy.Engine.{or_empty}
use sqlum_ai.Proxy.State.{Suggestion}
use sqlum_ai.Scripts.Profiles.Extract.{extract_columns, extract_values}
use sqlum_ai.Scripts.Profiles.{
  Profile, Profiles, SelectUse, profile_at, profile_key, count_column, count_suggestion,
  count_columns, count_values, count_suggestions, profile_event, profile_events, aggregate,
}
use sqlum_ai.Scripts.DailyReport.{top_missing}

abbrev HasNoNulls : Text × Profile → Type 0
HasNoNulls (k, p) = p.nulls ≡ 0

abbrev Clean : Profiles → Type 0
Clean = All HasNoNulls

profile_at-HasNoNulls : (key : Text) (ps : Profiles) → Clean ps → (profile_at key ps).nulls ≡ 0
unfolding Dict.get
profile_at-HasNoNulls key [] h = refl
profile_at-HasNoNulls key ((j, p) ∷ ps) (hp, h) = elim (Bool-cases (text_eq j key)) [
  | inl same ↦ rw (Dict.get, same) hp
  | inr other ↦ rw (Dict.get, other) (profile_at-HasNoNulls key ps h)
]

put-Clean :
    (key : Text) (p : Profile) (ps : Profiles) → p.nulls ≡ 0 → Clean ps → Clean (Dict.put key p ps)
unfolding Dict.put
put-Clean key p [] hp h = (hp, tt)
put-Clean key p ((j, q) ∷ ps) hp (hq, h) = elim (Bool-cases (text_eq j key)) [
  | inl same ↦ rw (Dict.put, same) (hp, h)
  | inr other ↦ rw (Dict.put, other) (hq, put-Clean key p ps hp h)
]

count_columns-Clean :
    (cols : List (Text × Text)) (ps : Profiles) → Clean ps → Clean (count_columns cols ps)
unfolding count_columns count_column
count_columns-Clean [] ps h = h
count_columns-Clean ((table, col) ∷ cols) ps h =
    let key = profile_key table col in
    count_columns-Clean cols (count_column key ps)
      (put-Clean key _ ps (profile_at-HasNoNulls key ps h) h)

module _ (suggest : Text → Option Suggestion) where
  count_values-Clean :
      (table : Text) (values : List (Text × Text)) (ps : Profiles)
      → Clean ps
      → Clean (count_values suggest table values ps)
  unfolding count_values count_suggestion
  count_values-Clean table [] ps h = h
  count_values-Clean table ((col, val) ∷ values) ps h = elim (Option-cases (suggest val)) [
    | inr e ↦ rw (count_values, e) (count_values-Clean table values ps h)
    | inl (s, e) ↦
        let key = profile_key table col in
        rw (count_values, e)
          (count_values-Clean table values (count_suggestion key s.kind ps)
            (put-Clean key _ ps (profile_at-HasNoNulls key ps h) h))
  ]

  count_suggestions-Clean :
      (cols values : List (Text × Text)) (ps : Profiles)
      → Clean ps
      → Clean (count_suggestions suggest cols values ps)
  unfolding count_suggestions
  count_suggestions-Clean [] values ps h = h
  count_suggestions-Clean ((table, col) ∷ cols) values ps h = elim (Bool-cases (nonempty table)) [
    | inl e ↦ rw (count_suggestions, e) (count_values-Clean table values ps h)
    | inr e ↦ rw (count_suggestions, e) h
  ]

  profile_events-Clean :
      (es : List (Option (Option Text))) (acc : Profiles × Dict SelectUse)
      → Clean acc.0
      → Clean (profile_events suggest es acc).0
  unfolding profile_events profile_event
  profile_events-Clean [] acc h = h
  profile_events-Clean (none ∷ es) acc h = profile_events-Clean es acc h
  profile_events-Clean (some raw ∷ es) acc h =
      let sql = strip (or_empty raw) in
      profile_events-Clean es (profile_event suggest raw acc) (
        count_suggestions-Clean (extract_columns sql) (extract_values sql)
          (count_columns (extract_columns sql) acc.0)
          (count_columns-Clean (extract_columns sql) acc.0 h))

insert-Clean :
    (x : Text × Profile) (ps : Profiles)
    → HasNoNulls x
    → Clean ps
    → insert (λ a b. ltb b.1.nulls a.1.nulls) x ps ≡ x ∷ ps
unfolding insert
insert-Clean x [] hx h = refl
insert-Clean x (y ∷ ys) hx (hy, h) = ground arith

sorted-Clean : (ps : Profiles) → Clean ps → sorted (λ a b. ltb b.1.nulls a.1.nulls) ps ≡ ps
unfolding sorted
sorted-Clean [] h = refl
sorted-Clean (p ∷ ps) (hp, h) =
    ap (insert (λ a b. ltb b.1.nulls a.1.nulls) p) (sorted-Clean ps h) ∙ insert-Clean p ps hp h

-- The ranking by missing values ranks nothing on aggregated profiles: whatever the events were, it is
-- the first columns in the order in which they came up.
pub top_missing-aggregate :
    (suggest : Text → Option Suggestion) (es : List (Option (Option Text))) (n : ℕ)
    → top_missing n (aggregate suggest es).0 ≡ take n (aggregate suggest es).0
unfolding top_missing aggregate
top_missing-aggregate suggest es n =
    ap (take n)
      (sorted-Clean (aggregate suggest es).0 (profile_events-Clean suggest es ([], []) tt))
