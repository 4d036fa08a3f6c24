-- ===== src/Scripts/Profiles/Extract.antt =====
-- `extract_columns` and `extract_values`: what an INSERT and an UPDATE name and set.
use sqlum_ai.Common.{
  ℕ, ◌==◌, Bool, false, ◌&&◌, ◌||◌, Option, none, some, List, [], ◌∷◌, ◌++◌, map, take, length, ◌-◌,
  if◌then◌else◌,
}
use sqlum_ai.Common.Text.{
  Text, codes, strip, strip_by, split_at_char, before_char, is_space, is_word, lower_char,
}
use sqlum_ai.Common.Regex.{
  Re, chr, rep, cap, lit, word, ◌▹◌, spaces, spaces?, ident, up_to_paren, any_char, search_re,
  group,
}

abbrev is_blank_or_bracket : ℕ → Bool
is_blank_or_bracket c = c == b' ' || c == b'[' || c == b']'

-- `s.strip(" []")`
unfoldable pub bare_name : Text → Text
unfolding strip_by
bare_name s = strip_by is_blank_or_bracket s

-- `insert\s+into\s+([\w\.\[\]]+)\s*\(([^\)]+)\)`
abbrev pub insert_columns_pattern : Re
insert_columns_pattern =
    word (codes "insert")
    ▹ spaces
    ▹ word (codes "into")
    ▹ spaces
    ▹ cap 1 ident
    ▹ spaces?
    ▹ lit b'('
    ▹ cap 2 up_to_paren
    ▹ lit b')'

-- `update\s+([\w\.\[\]]+)\s+set\s+(.+?)\s+where\s`
abbrev pub update_set_pattern : Re
update_set_pattern =
    word (codes "update")
    ▹ spaces
    ▹ cap 1 ident
    ▹ spaces
    ▹ word (codes "set")
    ▹ spaces
    ▹ cap 2 (rep false 1 none any_char)
    ▹ spaces
    ▹ word (codes "where")
    ▹ chr is_space

-- `insert\s+into\s+[\w\.\[\]]+\s*\(([^\)]+)\)\s*values\s*\(([^\)]+)\)`
abbrev pub insert_values_pattern : Re
insert_values_pattern =
    word (codes "insert")
    ▹ spaces
    ▹ word (codes "into")
    ▹ spaces
    ▹ ident
    ▹ spaces?
    ▹ lit b'('
    ▹ cap 1 up_to_paren
    ▹ lit b')'
    ▹ spaces?
    ▹ word (codes "values")
    ▹ spaces?
    ▹ lit b'('
    ▹ cap 2 up_to_paren
    ▹ lit b')'

unfoldable pub insert_columns : Text → List (Text × Text)
unfolding search_re group lower_char is_space is_word bare_name split_at_char
insert_columns sql_text = elim (search_re insert_columns_pattern sql_text) [
  | none ↦ []
  | some m ↦ map (λ c. (group m 1, bare_name c)) (split_at_char b',' (group m 2))
]

unfoldable pub update_columns : Text → List (Text × Text)
unfolding search_re group lower_char is_space is_word bare_name split_at_char before_char
update_columns sql_text = elim (search_re update_set_pattern sql_text) [
  | none ↦ []
  | some m ↦
      map (λ part. (group m 1, bare_name (before_char b'=' part))) (split_at_char b',' (group m 2))
]

unfoldable pub extract_columns : Text → List (Text × Text)
unfolding insert_columns update_columns
extract_columns sql_text = insert_columns sql_text ++ update_columns sql_text

-- Is the last character a quote?
abbrev ends_in_quote : Text → Bool
ends_in_quote [] = false
ends_in_quote (c ∷ []) = c == b'\''
ends_in_quote (c ∷ (d ∷ s)) = ends_in_quote (d ∷ s)

-- `v[1:-1] if v.startswith("'") and v.endswith("'")`; a lone quote is both ends
unfoldable pub without_quotes : Text → Text
without_quotes [] = []
without_quotes (c ∷ s) =
    if c == b'\'' && ends_in_quote (c ∷ s) then take (length s - 1) s else c ∷ s

-- `zip(columns, raw_vals)`
unfoldable pub paired : List Text → List Text → List (Text × Text)
unfolding bare_name without_quotes strip
paired (c ∷ cs) (v ∷ vs) = (bare_name c, without_quotes (strip v)) ∷ paired cs vs
paired cs vs = []

unfoldable pub insert_values : Text → List (Text × Text)
unfolding search_re group lower_char is_space is_word paired split_at_char
insert_values sql_text = elim (search_re insert_values_pattern sql_text) [
  | none ↦ []
  | some m ↦ paired (split_at_char b',' (group m 1)) (split_at_char b',' (group m 2))
]

-- `part.split("=", 1)`, where there is a `=`
unfoldable pub split_assignment : Text → Option (Text × Text)
split_assignment [] = none
split_assignment (c ∷ s) =
    let rest = split_assignment s in
    if c == b'=' then some ([], s) else elim rest [ none ↦ none | some lr ↦ some (c ∷ lr.0, lr.1) ]

unfoldable pub assigned : List Text → List (Text × Text)
unfolding split_assignment bare_name without_quotes strip
assigned [] = []
assigned (part ∷ parts) =
    let rest = assigned parts in
    elim (split_assignment part) [
      | none ↦ rest
      | some lr ↦ (bare_name lr.0, without_quotes (strip lr.1)) ∷ rest
    ]

unfoldable pub update_values : Text → List (Text × Text)
unfolding search_re group lower_char is_space is_word assigned split_at_char
update_values sql_text = elim (search_re update_set_pattern sql_text) [
  | none ↦ []
  | some m ↦ assigned (split_at_char b',' (group m 2))
]

unfoldable pub extract_values : Text → List (Text × Text)
unfolding insert_values update_values
extract_values sql_text = insert_values sql_text ++ update_values sql_text
