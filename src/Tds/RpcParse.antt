-- ===== src/Tds/RpcParse.antt =====
-- src/tds/rpc_parse.py: the procedure and the parameters that a payload seems to name.
pub mod Listed
pub mod Found
use sqlum_ai.Common.{
  ℕ, zero, suc, Bool, true, not, ◌==◌, ◌||◌, Option, none, some, List, [], ◌∷◌, take, length, leb,
  ◌&&◌, if◌then◌else◌,
}
use sqlum_ai.Common.Text.{Text, nonempty, is_space, is_word, is_digit}
use sqlum_ai.Common.Regex.{Re, rep, cap, lit, ◌▹◌, spaces?, search_re, group}
use sqlum_ai.Tds.Utf16.{Bytes, decode_ignore}

-- `[A-Za-z0-9_]`
unfoldable pub is_name_char : ℕ → Bool
unfolding is_digit
is_name_char c = (leb 65 c && leb c 90) || (leb 97 c && leb c 122) || is_digit c || c == b'_'

-- `[\w\.\[\]]`
unfoldable pub is_proc_char : ℕ → Bool
unfolding is_word
is_proc_char c = is_word c || c == b'.' || c == b'[' || c == b']'

unfoldable pub no_quote : ℕ → Bool
no_quote c = not (c == b'\'')

-- `([\w\.\[\]]{3,})\s*@`
abbrev pub proc_pattern : Re
proc_pattern = cap 1 (rep true 3 none is_proc_char) ▹ spaces? ▹ lit b'@'

-- `@([A-Za-z0-9_]{1,64})`
abbrev pub param_pattern : Re
param_pattern = lit b'@' ▹ cap 1 (rep true 1 (some 64) is_name_char)

-- `'([^']{0,120})'`
abbrev pub value_pattern : Re
value_pattern = lit b'\'' ▹ cap 1 (rep true 0 (some 120) no_quote) ▹ lit b'\''

-- The loop over `re.finditer`. A match takes two characters at least, so as many rounds as there are
-- characters are enough.
unfoldable pub find_params : ℕ → Text → List (Text × Text)
unfolding search_re group is_name_char no_quote
find_params zero s = []
find_params (suc fuel) s = elim (search_re param_pattern s) [
  | none ↦ []
  | some m ↦
      let rest = find_params fuel m.after in
      elim (search_re value_pattern (take 200 m.after)) [
        | none ↦ rest
        | some vm ↦ (group m 1, group vm 1) ∷ rest
      ]
]

unfoldable pub extract_proc_and_params : Bytes → Option Text × List (Text × Text)
unfolding search_re group is_proc_char is_space find_params decode_ignore
extract_proc_and_params payload =
    let s = decode_ignore payload in
    if nonempty s
    then (
      elim (search_re proc_pattern s) [ none ↦ none | some m ↦ some (group m 1) ],
      find_params (length s) s,
    )
    else (none, [])
