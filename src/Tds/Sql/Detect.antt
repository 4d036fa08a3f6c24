-- ===== src/Tds/Sql/Detect.antt =====
-- The detectors of BULK INSERT, MERGE and SELECT.
use sqlum_ai.Common.{
  ◌==◌, Bool, true, false, not, ◌&&◌, ◌||◌, Option, none, some, List, [], ◌∷◌, map, keep,
  if◌then◌else◌,
}
use sqlum_ai.Common.Text.{
  Text, codes, nonempty, strip, strip_by, split_at_char, before_char, is_space, is_word, lower_char,
  text_eq,
}
use sqlum_ai.Common.Regex.{
  Re, alt, chr, rep, cap, end_of_text, lit, word, ◌▹◌, spaces, spaces?, ident, up_to_paren,
  any_char, search_re, match_re, group,
}
use sqlum_ai.Tds.Sql.{is_bracket, split_csv_respecting_quotes}

-- `bulk\s+insert\s+([\w\.\[\]]+)\s+from\s+'([^']+)'`
abbrev pub bulk_pattern : Re
bulk_pattern =
    word (codes "bulk")
    ▹ spaces
    ▹ word (codes "insert")
    ▹ spaces
    ▹ cap 1 ident
    ▹ spaces
    ▹ word (codes "from")
    ▹ spaces
    ▹ lit b'\''
    ▹ cap 2 (rep true 1 none (λ c. not (c == b'\'')))
    ▹ lit b'\''

unfoldable pub detect_bulk_insert : Text → Option Text × Option Text
unfolding search_re group lower_char is_space is_word strip
detect_bulk_insert sql_text = elim (search_re bulk_pattern (strip sql_text)) [
  | none ↦ (none, none)
  | some m ↦ (some (group m 1), some (group m 2))
]

-- `s.replace("[", "").replace("]", "")`
unfoldable pub drop_brackets : Text → Text
drop_brackets [] = []
drop_brackets (c ∷ s) =
    let rest = drop_brackets s in if c == b'[' || c == b']' then rest else c ∷ rest

-- `s.replace("].[", ".")`
unfoldable pub join_qualified : Text → Text
join_qualified [] = []
join_qualified (a ∷ []) = a ∷ []
join_qualified (a ∷ (b ∷ [])) = a ∷ (b ∷ [])
join_qualified (a ∷ (b ∷ (c ∷ s))) =
    let joined = b'.' ∷ join_qualified s in
    let rest = a ∷ join_qualified (b ∷ (c ∷ s)) in
    if a == b']' && b == b'.' && c == b'[' then joined else rest

unfoldable pub plain_name : Text → Text
unfolding drop_brackets join_qualified
plain_name s = drop_brackets (join_qualified s)

-- `^[\w]+\.`
abbrev pub alias_pattern : Re
alias_pattern = rep true 1 none is_word ▹ lit b'.'

-- `re.sub(r"^[\w]+\.", "", s)`
unfoldable pub drop_alias : Text → Text
unfolding match_re is_word
drop_alias s = elim (match_re alias_pattern s) [ none ↦ s | some m ↦ m.after ]

-- the columns of the assignments, without those that are empty
unfoldable pub merge_updates : List Text → List Text
unfolding drop_alias strip strip_by is_bracket before_char
merge_updates parts =
    keep nonempty (map (λ p. strip_by is_bracket (drop_alias (strip (before_char b'=' p)))) parts)

-- `when\s+matched\s+then\s+update\s+set\s+(.+?)\s+(when|output|;|$)`
abbrev pub merge_update_pattern : Re
merge_update_pattern =
    word (codes "when")
    ▹ spaces
    ▹ word (codes "matched")
    ▹ spaces
    ▹ word (codes "then")
    ▹ spaces
    ▹ word (codes "update")
    ▹ spaces
    ▹ word (codes "set")
    ▹ spaces
    ▹ cap 1 (rep false 1 none any_char)
    ▹ spaces
    ▹ cap 2 (alt (word (codes "when")) (alt (word (codes "output")) (alt (lit b';') end_of_text)))

-- `when\s+not\s+matched\s+then\s+insert\s*\(([^\)]+)\)`
abbrev pub merge_insert_pattern : Re
merge_insert_pattern =
    word (codes "when")
    ▹ spaces
    ▹ word (codes "not")
    ▹ spaces
    ▹ word (codes "matched")
    ▹ spaces
    ▹ word (codes "then")
    ▹ spaces
    ▹ word (codes "insert")
    ▹ spaces?
    ▹ lit b'('
    ▹ cap 1 up_to_paren
    ▹ lit b')'

-- the target, the updated columns and the inserted columns
unfoldable pub detect_merge : Text → Option Text × List Text × List Text
unfolding search_re group lower_char is_space is_word strip strip_by is_bracket split_at_char
    plain_name merge_updates split_csv_respecting_quotes
detect_merge sql_text =
    let sql = strip sql_text in
    elim (search_re (word (codes "merge") ▹ spaces ▹ word (codes "into") ▹ spaces ▹ cap 1 ident)
      sql) [
        | none ↦ (none, [], [])
        | some m ↦ (
          some (plain_name (group m 1)),
          elim (search_re merge_update_pattern sql) [
            | none ↦ []
            | some u ↦ merge_updates (split_csv_respecting_quotes (group u 1))
          ],
          elim (search_re merge_insert_pattern sql) [
            | none ↦ []
            | some i ↦ keep nonempty (map (strip_by is_bracket) (split_at_char b',' (group i 1)))
          ],
        )
      ]

-- `select\s+(.*?)\s+from\s`
abbrev pub select_pattern : Re
select_pattern =
    word (codes "select")
    ▹ spaces
    ▹ cap 1 (rep false 0 none any_char)
    ▹ spaces
    ▹ word (codes "from")
    ▹ chr is_space

-- the tables, the columns, and whether the list is `*`
unfoldable pub extract_select_info : Text → List Text × List Text × Bool
unfolding search_re group lower_char is_space is_word strip plain_name split_csv_respecting_quotes
    text_eq
extract_select_info sql_text =
    let sql = strip sql_text in
    let cols_raw : Text = elim (search_re select_pattern sql) [
      | none ↦ codes "*"
      | some m ↦ strip (group m 1)
    ] in
    let star = text_eq cols_raw (codes "*") in
    (
      elim (search_re (word (codes "from") ▹ spaces ▹ cap 1 ident) sql) [
        | none ↦ []
        | some m ↦ plain_name (group m 1) ∷ []
      ],
      if star then [] else map strip (split_csv_respecting_quotes cols_raw),
      star,
    )
