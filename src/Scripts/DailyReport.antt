-- ===== src/Scripts/DailyReport.antt =====
-- scripts/generate_daily_report.py and scripts/llm_summarize_profiles.py: the rankings of the profiles, and
-- the lines of the report and of the summary where no model answers. The profiles are those of
-- scripts/aggregate_profiles.py, under "profiles" of the file. The drift of the ratios of nulls is left
-- out.
pub mod Ranked
use sqlum_ai.Common.{ℕ, ◌+◌, Bool, List, [], ◌∷◌, ◌++◌, map, take, ltb, Option, none, some}
use sqlum_ai.Common.Text.{Text, codes, join}
use sqlum_ai.Common.Dict
use sqlum_ai.Common.Dict.{Dict, get_or}
use sqlum_ai.Common.Show.{show, sorted, most_common}
use sqlum_ai.Scripts.Profiles.{Profile, Profiles, SelectUse, profile_at}

-- `sum(d.values())`
unfoldable pub total : Dict ℕ → ℕ
total [] = 0
total ((k, n) ∷ d) = n + total d

-- the columns with the most nulls
unfoldable pub top_missing : ℕ → Profiles → Profiles
unfolding sorted
top_missing n ps = take n (sorted (λ a b. ltb b.1.nulls a.1.nulls) ps)

-- the columns with the most suggestions, each with their number
unfoldable pub top_suggestions : ℕ → Profiles → Dict ℕ
unfolding total most_common
top_suggestions n ps = take n (most_common (map (λ kp. (kp.0, total kp.1.suggestions)) ps))

-- `{k}:{n}` of each entry, with commas between
abbrev pub pairs_text : Dict ℕ → Text
pairs_text d = join (codes ", ") (map (λ kn. kn.0 ++ b':' ∷ show kn.1) d)

abbrev pub missing_line : Text × Profile → Text
missing_line (k, v) =
    codes "- " ++ k ++ codes ": nulls=" ++ show v.nulls ++ codes " / count=" ++ show v.occurs

abbrev pub suggestion_line : Profiles → Text × ℕ → Text
suggestion_line ps (k, n) =
    codes "- "
    ++ k
    ++ codes ": "
    ++ show n
    ++ codes " suggestions ("
    ++ pairs_text (profile_at k ps).suggestions
    ++ codes ")"

abbrev pub select_line : Text × SelectUse → Text
select_line (table, info) =
    codes "- "
    ++ table
    ++ codes ": select_star="
    ++ show info.star
    ++ codes ", top_columns=["
    ++ pairs_text (take 5 (most_common info.columns))
    ++ codes "]"

abbrev pub select_section : Dict SelectUse → List Text
select_section [] = []
select_section (s ∷ selects) =
    codes "## SELECT Analysis" ∷ (map select_line (s ∷ selects) ++ codes "" ∷ [])

-- The lines of the report between the title and the section on drift.
unfoldable pub report_lines : Profiles → Dict SelectUse → List Text
unfolding top_missing top_suggestions show join most_common Dict.get
report_lines ps selects =
    codes "" ∷ codes "## Top Missingness" ∷ []
    ++ map missing_line (top_missing 10 ps)
    ++ codes "" ∷ codes "## Format Issues & Suggestions" ∷ []
    ++ map (suggestion_line ps) (top_suggestions 10 ps)
    ++ codes "" ∷ []
    ++ select_section selects

-- The lines of the summary's prompt about the first 50 profiles.
unfoldable pub sample_lines : Profiles → List Text
unfolding total show
sample_lines ps =
    map
      (λ kv.
        codes "- "
        ++ kv.0
        ++ codes ": count="
        ++ show kv.1.occurs
        ++ codes " nulls="
        ++ show kv.1.nulls
        ++ codes " suggestions="
        ++ show (total kv.1.suggestions))
      (take 50 ps)

-- The summary where no model answers.
unfoldable pub heuristic_lines : Profiles → List Text
unfolding top_missing top_suggestions show
heuristic_lines ps =
    codes "LLM not available; heuristic summary:" ∷ codes "" ∷ codes "Top Missingness:" ∷ []
    ++ map
        (λ kv.
          codes "- "
          ++ kv.0
          ++ codes ": nulls="
          ++ show kv.1.nulls
          ++ codes " count="
          ++ show kv.1.occurs)
        (top_missing 5 ps)
    ++ codes "" ∷ codes "Format Issues:" ∷ []
    ++ map (λ kn. codes "- " ++ kn.0 ++ codes ": " ++ show kn.1 ++ codes " suggestions")
        (top_suggestions 5 ps)
