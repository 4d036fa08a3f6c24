-- ===== src/Tds/Sql/Rewrite.antt =====
-- `reconstruct_insert` and `reconstruct_update`: a statement with new values.
pub mod Kept
pub mod Literals
pub mod Numbers
pub mod ReadBack
use sqlum_ai.Common.{
  ℕ, ◌==◌, Bool, true, false, Option, none, some, List, [], ◌∷◌, ◌++◌, map, if◌then◌else◌, is_some,
}
use sqlum_ai.Common.Text.{Text, codes, join, is_digit, is_space, is_word, lower_char}
use sqlum_ai.Common.Regex.{
  Re, eps, alt, chr, rep, cap, end_of_text, lit, word, ◌▹◌, spaces, spaces?, ident, up_to_paren,
  any_char, search_re, match_re, group,
}

-- `^-?\d+(\.\d+)?$`
abbrev pub number_pattern : Re
number_pattern =
    alt (lit b'-') eps
    ▹ rep true 1 none is_digit
    ▹ alt (lit b'.' ▹ rep true 1 none is_digit) eps
    ▹ end_of_text

-- `v.replace("'", "''")`
unfoldable pub double_quotes : Text → Text
double_quotes [] = []
double_quotes (c ∷ s) =
    let rest = double_quotes s in if c == b'\'' then c ∷ (c ∷ rest) else c ∷ rest

unfoldable pub is_number : Text → Bool
unfolding match_re is_digit
is_number v = is_some (match_re number_pattern v)

-- A value as a literal: a number as it is, any other value between quotes.
unfoldable pub encode_value : Text → Text
unfolding is_number double_quotes
encode_value v = if is_number v then v else b'\'' ∷ (double_quotes v ++ b'\'' ∷ [])

-- `(insert\s+into\s+[\w\.\[\]]+\s*\([^\)]+\)\s*values\s*\()([^\)]+)(\).*)`
abbrev pub insert_prefix : Re
insert_prefix =
    word (codes "insert")
    ▹ spaces
    ▹ word (codes "into")
    ▹ spaces
    ▹ ident
    ▹ spaces?
    ▹ lit b'('
    ▹ up_to_paren
    ▹ lit b')'
    ▹ spaces?
    ▹ word (codes "values")
    ▹ spaces?
    ▹ lit b'('

abbrev pub insert_suffix : Re
insert_suffix = lit b')' ▹ rep true 0 none any_char

abbrev pub insert_parts : Re
insert_parts = cap 1 insert_prefix ▹ cap 2 up_to_paren ▹ cap 3 insert_suffix

unfoldable pub reconstruct_insert : Text → List Text → Option Text
unfolding search_re group lower_char is_space is_word encode_value join
reconstruct_insert sql_text new_values = elim (search_re insert_parts sql_text) [
  | none ↦ none
  | some m ↦ some (group m 1 ++ (join (codes ", ") (map encode_value new_values) ++ group m 3))
]

-- `(update\s+[\w\.\[\]]+\s+set\s+)(.+?)(\s+where\s.+)`
abbrev pub update_prefix : Re
update_prefix = word (codes "update") ▹ spaces ▹ ident ▹ spaces ▹ word (codes "set") ▹ spaces

abbrev pub update_suffix : Re
update_suffix = spaces ▹ word (codes "where") ▹ chr is_space ▹ rep true 1 none any_char

abbrev pub update_parts : Re
update_parts = cap 1 update_prefix ▹ cap 2 (rep false 1 none any_char) ▹ cap 3 update_suffix

-- the assignments, as long as there is a column and a value
unfoldable pub assignments : List Text → List Text → List Text
unfolding encode_value
assignments [] vs = []
assignments (c ∷ cs) [] = []
assignments (c ∷ cs) (v ∷ vs) = (c ++ (codes " = " ++ encode_value v)) ∷ assignments cs vs

unfoldable pub reconstruct_update : Text → List Text → List Text → Option Text
unfolding search_re group lower_char is_space is_word assignments join
reconstruct_update sql_text columns new_values = elim (search_re update_parts sql_text) [
  | none ↦ none
  | some m ↦ some (group m 1 ++ (join (codes ", ") (assignments columns new_values) ++ group m 3))
]
