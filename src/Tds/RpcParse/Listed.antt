-- ===== src/Tds/RpcParse/Listed.antt =====
-- What it means that a text of an RPC lists parameters, with no search order named but the one from the
-- left.
use sqlum_ai.Common.{
  ℕ, ◌≤◌, ◌≡◌, ◌⊎◌, Bool, true, Option, none, some, List, [], ◌∷◌, ◌++◌, length, take, All,
}
use sqlum_ai.Common.Text.{Text, is_space}
use sqlum_ai.Common.Regex.Longest.{NoneFollows}
use sqlum_ai.Tds.RpcParse.{is_name_char, is_proc_char, no_quote}

abbrev pub Each : (ℕ → Bool) → Text → Type 0
Each p = All (λ x. p x ≡ true)

-- The text has `@` and the name, which goes on for as long as it may, and `after` is what stands behind it.
pub record Named (s name after : Text) : Type 0 where
  pub before : Text
  pub split : s ≡ before ++ b'@' ∷ (name ++ after)
  pub chars : Each is_name_char name
  pub some_chars : 1 ≤ length name
  pub at_most : length name ≤ 64
  pub ended : (length name ≡ 64) ⊎ NoneFollows is_name_char after

-- The text has the value, in quotes.
pub record Quoted (s val : Text) : Type 0 where
  pub before : Text
  pub after : Text
  pub split : s ≡ before ++ b'\'' ∷ (val ++ b'\'' ∷ after)
  pub chars : Each no_quote val
  pub at_most : length val ≤ 120

abbrev pub Unnamed : Text → Type 0
Unnamed s = (name after : Text) → Named s name after → ⊥

abbrev pub Unquoted : Text → Type 0
Unquoted s = (val : Text) → Quoted s val → ⊥

-- No quoted value stands further to the left.
abbrev pub FirstQuoted : (s val : Text) → Quoted s val → Type 0
FirstQuoted s val q = (val' : Text) (q' : Quoted s val') → length q.before ≤ length q'.before

-- No name stands further to the left.
abbrev pub First : (s name after : Text) → Named s name after → Type 0
First s name after n =
    (name' after' : Text) (n' : Named s name' after') → length n.before ≤ length n'.before

-- The names from left to right, each with the first quoted value in the 200 characters behind it; a name that
-- has none there is passed over, and at the end no name is left.
pub data Lists : Text → List (Text × Text) → Type 0 where
  ends : {s : Text} → Unnamed s → Lists s []
  passes :
      {s name after : Text} {ps : List (Text × Text)}
      → (n : Named s name after) → First s name after n
      → Unquoted (take 200 after)
      → Lists after ps
      → Lists s ps
  takes :
      {s name after val : Text} {ps : List (Text × Text)}
      → (n : Named s name after) → First s name after n
      → (q : Quoted (take 200 after) val) → FirstQuoted (take 200 after) val q
      → Lists after ps
      → Lists s ((name, val) ∷ ps)

-- The text has the procedure's name, blanks and `@`.
pub record Calls (s proc : Text) : Type 0 where
  pub before : Text
  pub blanks : Text
  pub after : Text
  pub split : s ≡ before ++ (proc ++ (blanks ++ b'@' ∷ after))
  pub chars : Each is_proc_char proc
  pub at_least : 3 ≤ length proc
  pub spaces : Each is_space blanks

-- A procedure is found if there is one, and then the first.
abbrev pub Procedure : Text → Option Text → Type 0
Procedure s none = (proc : Text) → Calls s proc → ⊥
Procedure s (some proc) =
    (c : Calls s proc) × ((proc' : Text) (c' : Calls s proc') → length c.before ≤ length c'.before)
