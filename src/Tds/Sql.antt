-- ===== src/Tds/Sql.antt =====
-- src/tds/sqlparse_simple.py: table, columns and values of a statement, by patterns.
pub mod Rewrite
pub mod Multirow
pub mod Detect
use sqlum_ai.Common.{
  ℕ, ◌==◌, Bool, true, false, not, ◌&&◌, ◌||◌, Option, none, some, List, [], ◌∷◌, ◌++◌, map, drop,
  if◌then◌else◌,
}
use sqlum_ai.Common.Text.{
  Text, codes, nonempty, contains, strip, strip_by, split_at_char, before_char,
}
use sqlum_ai.Common.Regex.{
  Re, Match, chr, rep, cap, lit, word, ◌▹◌, spaces, spaces?, ident, up_to_paren, any_char,
  search_re, group,
}
use sqlum_ai.Common.Text.{is_space, is_word, lower_char}

-- `insert\s+into\s+([\w\.\[\]]+)\s*\(([^\)]+)\)`
abbrev pub insert_head : Re
insert_head =
    word (codes "insert")
    ▹ spaces
    ▹ word (codes "into")
    ▹ spaces
    ▹ cap 1 ident
    ▹ spaces?
    ▹ lit b'('
    ▹ cap 2 up_to_paren
    ▹ lit b')'

-- `update\s+([\w\.\[\]]+)\s+set\s+(.+?)\s+where\s`
abbrev pub update_head : Re
update_head =
    word (codes "update")
    ▹ spaces
    ▹ cap 1 ident
    ▹ spaces
    ▹ word (codes "set")
    ▹ spaces
    ▹ cap 2 (rep false 1 none any_char)
    ▹ spaces
    ▹ word (codes "where")
    ▹ chr is_space

-- the characters of `strip(" []")`
unfoldable pub is_bracket : ℕ → Bool
is_bracket c = c == b' ' || c == b'[' || c == b']'

-- `[c.strip(" []") for c in s.split(",")]`
unfoldable pub column_names : Text → List Text
unfolding is_bracket strip_by split_at_char
column_names s = map (strip_by is_bracket) (split_at_char b',' s)

-- `part.split("=")[0].strip(" []")`
unfoldable pub assigned_name : Text → Text
unfolding is_bracket strip_by before_char
assigned_name part = strip_by is_bracket (before_char b'=' part)

-- the table, with the columns
unfoldable pub extract_table_and_columns : Text → Option Text × List Text
unfolding column_names assigned_name search_re group lower_char is_space is_word strip split_at_char
extract_table_and_columns sql_text =
    let sql = strip sql_text in
    elim (search_re insert_head sql) [
      | some m ↦ (some (group m 1), column_names (group m 2))
      | none ↦ elim (search_re update_head sql) [
        | some m ↦ (some (group m 1), map assigned_name (split_at_char b',' (group m 2)))
        | none ↦ (none, [])
      ]
    ]

-- The loop of `_split_csv_respecting_quotes`: the text left, `buf`, `in_q` and `out`.
unfoldable pub split_loop : Text → Text → Bool → List Text → List Text
unfolding strip
split_loop [] buf in_q out = if nonempty buf then out ++ strip buf ∷ [] else out
split_loop (c ∷ s) buf in_q out =
    let quote = split_loop s (buf ++ c ∷ []) (not in_q) out in
    let cut = split_loop s [] in_q (out ++ strip buf ∷ []) in
    let other = split_loop s (buf ++ c ∷ []) in_q out in
    if c == b'\'' then quote else if c == b',' && not in_q then cut else other

unfoldable pub split_csv_respecting_quotes : Text → List Text
unfolding split_loop
split_csv_respecting_quotes s = split_loop s [] false []

-- `s[:-1]`
unfoldable pub drop_last : Text → Text
drop_last [] = []
drop_last (c ∷ []) = []
drop_last (c ∷ (d ∷ s)) = c ∷ drop_last (d ∷ s)

-- `s.endswith("'")`
unfoldable pub ends_with_quote : Text → Bool
ends_with_quote [] = false
ends_with_quote (c ∷ []) = c == b'\''
ends_with_quote (c ∷ (d ∷ s)) = ends_with_quote (d ∷ s)

-- `v[1:-1] if v.startswith("'") and v.endswith("'") else v`
unfoldable pub unquote : Text → Text
unfolding drop_last ends_with_quote
unquote [] = []
unquote (c ∷ s) = if c == b'\'' && ends_with_quote (c ∷ s) then drop_last s else c ∷ s

-- `insert\s+into\s+[\w\.\[\]]+\s*\([^\)]+\)\s*values\s*\(([^\)]+)\)`
abbrev pub insert_values : Re
insert_values =
    word (codes "insert")
    ▹ spaces
    ▹ word (codes "into")
    ▹ spaces
    ▹ ident
    ▹ spaces?
    ▹ lit b'('
    ▹ up_to_paren
    ▹ lit b')'
    ▹ spaces?
    ▹ word (codes "values")
    ▹ spaces?
    ▹ lit b'('
    ▹ cap 1 up_to_paren
    ▹ lit b')'

-- `update\s+[\w\.\[\]]+\s+set\s+(.+?)\s+where\s`
abbrev pub update_values : Re
update_values =
    word (codes "update")
    ▹ spaces
    ▹ ident
    ▹ spaces
    ▹ word (codes "set")
    ▹ spaces
    ▹ cap 1 (rep false 1 none any_char)
    ▹ spaces
    ▹ word (codes "where")
    ▹ chr is_space

-- `s.split("=", 1)[1]`, of a text that holds the sign
unfoldable pub after_char : ℕ → Text → Text
after_char d [] = []
after_char d (c ∷ s) = let rest = after_char d s in if c == d then s else rest

-- the right sides of the parts that have one
unfoldable pub assigned_values : List Text → List Text
unfolding after_char strip unquote contains
assigned_values [] = []
assigned_values (part ∷ ps) =
    let rest = assigned_values ps in
    if contains part (codes "=") then unquote (strip (after_char b'=' part)) ∷ rest else rest

unfoldable pub extract_values : Text → List Text
unfolding search_re group lower_char is_space is_word strip split_csv_respecting_quotes unquote
    assigned_values
extract_values sql_text =
    let sql = strip sql_text in
    elim (search_re insert_values sql) [
      | some m ↦ map unquote (split_csv_respecting_quotes (group m 1))
      | none ↦ elim (search_re update_values sql) [
        | some m ↦ assigned_values (split_csv_respecting_quotes (group m 1))
        | none ↦ []
      ]
    ]
