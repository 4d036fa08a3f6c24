-- ===== src/Scripts/Profiles.antt =====
-- scripts/aggregate_profiles.py: the columns and the values of the recorded statements, and the profiles
-- that are counted of them. An event's `sql_text` is a text or null.
pub mod Extract
pub mod Counted
use sqlum_ai.Common.{
  ℕ, ◌+◌, ◌≡◌, refl, Bool, ◌&&◌, Option, none, some, List, [], ◌∷◌, ◌++◌, if◌then◌else◌,
}
use sqlum_ai.Common.Text.{Text, codes, text_eq, nonempty, lower, strip, starts_with}
use sqlum_ai.Common.Dict
use sqlum_ai.Common.Dict.{Dict, get_or}
use sqlum_ai.Common.Table.{add_one}
use sqlum_ai.Policy.Engine.{or_empty}
use sqlum_ai.Proxy.State.{Suggestion}
use sqlum_ai.Tds.Sql.Detect.{extract_select_info}
use sqlum_ai.Scripts.Profiles.Extract.{extract_columns, extract_values}

pub record Profile : Type 0 where
  pub occurs : ℕ
  pub nulls : ℕ
  pub values : Dict ℕ
  pub suggestions : Dict ℕ

pub record SelectUse : Type 0 where
  pub star : ℕ
  pub columns : Dict ℕ

abbrev pub new_profile : Profile
new_profile = record { occurs = 0; nulls = 0; values = []; suggestions = [] }

abbrev pub new_select_use : SelectUse
new_select_use = record { star = 0; columns = [] }

abbrev pub Profiles : Type 0
Profiles = Dict Profile

-- `profiles[key]`
abbrev pub profile_at : Text → Profiles → Profile
profile_at key ps = get_or new_profile (Dict.get key ps)

-- `f"{table}.{col}"`
abbrev pub profile_key : Text → Text → Text
profile_key table col = table ++ b'.' ∷ col

-- `profiles[key]["count"] += 1`
unfoldable pub count_column : Text → Profiles → Profiles
unfolding Dict.put Dict.get
count_column key ps =
    let old = profile_at key ps in Dict.put key (record old { occurs = old.occurs + 1 }) ps

-- `profiles[key]["suggestions"][kind] += 1`
unfoldable pub count_suggestion : Text → Text → Profiles → Profiles
unfolding Dict.put Dict.get add_one
count_suggestion key kind ps =
    let old = profile_at key ps in
    Dict.put key (record old { suggestions = add_one kind old.suggestions }) ps

unfoldable pub count_columns : List (Text × Text) → Profiles → Profiles
unfolding count_column
count_columns [] ps = ps
count_columns ((table, col) ∷ cols) ps =
    count_columns cols (count_column (profile_key table col) ps)

unfoldable pub count_values :
    (Text → Option Suggestion) → Text → List (Text × Text) → Profiles → Profiles
unfolding count_suggestion
count_values suggest table [] ps = ps
count_values suggest table ((col, val) ∷ values) ps =
    count_values suggest table values (elim (suggest val) [
      | none ↦ ps
      | some s ↦ count_suggestion (profile_key table col) s.kind ps
    ])

-- `if table and values`, where `table` is that of the first column
unfoldable pub count_suggestions :
    (Text → Option Suggestion) → List (Text × Text) → List (Text × Text) → Profiles → Profiles
unfolding count_values
count_suggestions suggest [] values ps = ps
count_suggestions suggest ((table, col) ∷ cols) values ps =
    if nonempty table then count_values suggest table values ps else ps

abbrev pub select_at : Text → Dict SelectUse → SelectUse
select_at t uses = get_or new_select_use (Dict.get t uses)

unfoldable pub count_select_columns : List Text → Dict ℕ → Dict ℕ
unfolding add_one
count_select_columns [] c = c
count_select_columns (x ∷ xs) c = count_select_columns xs (add_one x c)

-- The branch for a SELECT: its first table's use. `select_summary[t]` comes to be only where something
-- is counted.
unfoldable pub count_select : Text → Dict SelectUse → Dict SelectUse
unfolding extract_select_info count_select_columns Dict.put Dict.get starts_with lower
count_select sql_text uses =
    let (tables, cols, star) = extract_select_info sql_text in
    if starts_with (lower sql_text) (codes "select ")
    then elim tables [
      | [] ↦ uses
      | t ∷ ts ↦
          let old = select_at t uses in
          let starred = if star then record old { star = old.star + 1 } else old in
          let counted = record starred { columns = count_select_columns cols starred.columns } in
          elim cols [
            | [] ↦ if star then Dict.put t counted uses else uses
            | c ∷ cs ↦ Dict.put t counted uses
          ]
    ]
    else uses

-- One round of the loop over the events.
unfoldable pub profile_event :
    (Text → Option Suggestion) → Option Text → Profiles × Dict SelectUse → Profiles × Dict SelectUse
unfolding strip extract_columns extract_values count_columns count_suggestions count_select
profile_event suggest raw (ps, uses) =
    let sql_text = strip (or_empty raw) in
    let cols = extract_columns sql_text in
    (
      count_suggestions suggest cols (extract_values sql_text) (count_columns cols ps),
      count_select sql_text uses,
    )

-- The loop over `iter_events`; `none` is a line that is no JSON.
unfoldable pub profile_events :
    (Text → Option Suggestion)
    → List (Option (Option Text))
    → Profiles × Dict SelectUse
    → Profiles × Dict SelectUse
unfolding profile_event
profile_events suggest [] acc = acc
profile_events suggest (none ∷ es) acc = profile_events suggest es acc
profile_events suggest (some e ∷ es) acc = profile_events suggest es (profile_event suggest e acc)

unfoldable pub aggregate :
    (Text → Option Suggestion) → List (Option (Option Text)) → Profiles × Dict SelectUse
unfolding profile_events
aggregate suggest es = profile_events suggest es ([], [])
