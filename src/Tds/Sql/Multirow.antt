-- ===== src/Tds/Sql/Multirow.antt =====
-- `extract_multirow_values` and `reconstruct_multirow_insert`.
pub mod Rows
use sqlum_ai.Common.{
  ℕ, zero, suc, ◌==◌, Bool, true, false, ◌&&◌, Option, none, some, List, [], ◌∷◌, ◌++◌, map,
  if◌then◌else◌,
}
use sqlum_ai.Common.Text.{Text, codes, join, is_space, is_word, lower_char}
use sqlum_ai.Common.Regex.{
  Re, rep, cap, end_of_text, lit, word, ◌▹◌, spaces, spaces?, ident, up_to_paren, any_char,
  search_re, group,
}
use sqlum_ai.Tds.Sql.{split_csv_respecting_quotes, unquote}
use sqlum_ai.Tds.Sql.Rewrite.{encode_value}

-- The depth, a Python `int`: `below n` is -(n + 1).
pub data Depth : Type 0 where
  level : ℕ → Depth
  below : ℕ → Depth

unfoldable pub deeper : Depth → Depth
deeper (level n) = level (suc n)
deeper (below zero) = level zero
deeper (below (suc n)) = below n

unfoldable pub shallower : Depth → Depth
shallower (level zero) = below zero
shallower (level (suc n)) = level n
shallower (below n) = below (suc n)

-- `depth == n`, `depth >= 1`
unfoldable pub at_depth : ℕ → Depth → Bool
at_depth n (level m) = m == n
at_depth n (below m) = false

unfoldable pub inside : Depth → Bool
inside (level zero) = false
inside (level (suc n)) = true
inside (below m) = false

-- `depth >= 1` keeps the character
abbrev pub kept : Depth → Text → ℕ → Text
kept d buf c = if inside d then buf ++ c ∷ [] else buf

-- A row's cells.
unfoldable pub row_of : Text → List Text
unfolding split_csv_respecting_quotes unquote
row_of buf = map unquote (split_csv_respecting_quotes buf)

-- The loop over the characters: the depth, `buf` and `rows`.
unfoldable pub scan_rows : Text → Depth → Text → List (List Text) → List (List Text)
unfolding deeper shallower at_depth inside row_of
scan_rows [] d buf rows = rows
scan_rows (c ∷ s) d buf rows =
    let opened =
      scan_rows s (deeper d) (if at_depth 1 (deeper d) then [] else kept (deeper d) buf c) rows in
    let row = scan_rows s (shallower d) [] (rows ++ row_of buf ∷ []) in
    let closed = scan_rows s (shallower d) (kept (shallower d) buf c) rows in
    let other = scan_rows s d (kept d buf c) rows in
    if c == b'('
    then opened
    else if c == b')'
    then (if at_depth 0 (shallower d) then row else closed)
    else other

-- `insert\s+into\s+[\w\.\[\]]+\s*\([^\)]+\)\s*values\s*`
abbrev pub multirow_prefix : Re
multirow_prefix =
    word (codes "insert")
    ▹ spaces
    ▹ word (codes "into")
    ▹ spaces
    ▹ ident
    ▹ spaces?
    ▹ lit b'('
    ▹ up_to_paren
    ▹ lit b')'
    ▹ spaces?
    ▹ word (codes "values")
    ▹ spaces?

-- `…(.+)$`
abbrev pub multirow_tail : Re
multirow_tail = multirow_prefix ▹ cap 1 (rep true 1 none any_char) ▹ end_of_text

-- `rows or None`
abbrev pub some_rows : List (List Text) → Option (List (List Text))
some_rows [] = none
some_rows (r ∷ rs) = some (r ∷ rs)

unfoldable pub extract_multirow_values : Text → Option (List (List Text))
unfolding search_re group lower_char is_space is_word scan_rows
extract_multirow_values sql_text = elim (search_re multirow_tail sql_text) [
  | none ↦ none
  | some m ↦ some_rows (scan_rows (group m 1) (level 0) [] [])
]

unfoldable pub row_text : List Text → Text
unfolding encode_value join
row_text row = codes "(" ++ (join (codes ", ") (map encode_value row) ++ codes ")")

-- `(insert … values\s*)(.+)$`
abbrev pub multirow_parts : Re
multirow_parts = cap 1 multirow_prefix ▹ cap 2 (rep true 1 none any_char) ▹ end_of_text

unfoldable pub reconstruct_multirow_insert : Text → List (List Text) → Option Text
unfolding search_re group lower_char is_space is_word row_text join
reconstruct_multirow_insert sql_text new_rows = elim (search_re multirow_parts sql_text) [
  | none ↦ none
  | some m ↦ some (group m 1 ++ join (codes ", ") (map row_text new_rows))
]
