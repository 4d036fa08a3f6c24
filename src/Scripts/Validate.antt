-- ===== src/Scripts/Validate.antt =====
-- scripts/validate_rules.py: the loop over the rules of a file, with the class of rules that it imports from
-- src/api.py, or the tests of its own where that import fails.
pub mod Loadable
pub mod Passed
pub mod Taken
use sqlum_ai.Common.{
  ℕ, suc, ◌^◌, ◌*◌, ◌==◌, Bool, true, false, not, ◌&&◌, ◌||◌, Option, none, some, List, [], ◌∷◌,
  any, all, is_some, leb, length, if◌then◌else◌,
}
use mathlib.Core.Option
use sqlum_ai.Common.Text.{Text, codes, text_eq, nonempty}
use sqlum_ai.Common.Dict
use sqlum_ai.Common.Dict.{Dict, get_or}
use sqlum_ai.Policy.Engine.{Number}
use sqlum_ai.Policy.Loader.{targets, actions, one_of}

-- A JSON value under a key; `negative n` is -(n + 1), and a list has `none` for what is no text.
pub data Json : Type 0 where
  null : Json
  bool : Bool → Json
  int : ℕ → Json
  negative : ℕ → Json
  float : Number → Json
  str : Text → Json
  list : List (Option Text) → Json
  object : Json

-- A rule of the file: an object, or `none` for any other value.
abbrev pub Raw : Type 0
Raw = Option (Dict Json)

-- The pair that `_validate_rule` returns, or the TypeError of looking up a list or an object in a set.
pub data Verdict : Type 0 where
  valid : Verdict
  invalid : Text → Verdict
  raised : Verdict

-- `raw.get(key)`, `raw.get(key, default)`
abbrev pub field : Text → Json → Dict Json → Json
field key default o = get_or default (Dict.get key o)

-- `isinstance(v, str) and v`
unfoldable pub is_name : Json → Bool
is_name (str s) = nonempty s
is_name _ = false

-- `v in allowed`; `none` where `v` cannot be hashed
unfoldable pub is_among : List Text → Json → Option Bool
is_among allowed (str s) = some (one_of s allowed)
is_among allowed (list l) = none
is_among allowed object = none
is_among allowed _ = some false

unfoldable pub is_reason : Json → Bool
is_reason null = true
is_reason (str s) = true
is_reason _ = false

-- `isinstance(v, (int, float)) and 0.0 <= float(v) <= 1.0`; a bool is an int
unfoldable pub is_confidence : Json → Bool
is_confidence (bool b) = true
is_confidence (int n) = leb n 1
is_confidence (float x) = if x.negative then x.units == 0 else leb x.units (10 ^ x.scale)
is_confidence _ = false

unfoldable pub is_flag : Json → Bool
is_flag (bool b) = true
is_flag _ = false

unfoldable pub is_envs : Json → Bool
is_envs null = true
is_envs (list l) = all is_some l
is_envs _ = false

unfoldable pub is_count : Json → Bool
is_count (bool b) = true
is_count (int n) = true
is_count _ = false

-- The next test of the rule: its message if it fails, else the tests behind it.
abbrev pub tested : Bool → Text → Verdict → Verdict
tested passed message rest = if passed then rest else invalid message

abbrev pub tested_in_set : Option Bool → Text → Verdict → Verdict
tested_in_set none message rest = raised
tested_in_set (some b) message rest = tested b message rest

unfoldable pub validate_rule : Raw → Verdict
unfolding is_name is_among is_reason is_confidence is_flag is_envs is_count
validate_rule none = invalid (codes "Rule must be an object")
validate_rule (some o) =
    tested (is_name (field (codes "id") null o)) (codes "id must be a non-empty string") (
      tested_in_set (is_among targets (field (codes "target") null o))
        (codes "target must be one of ['column', 'pattern', 'table']")
        (tested (is_name (field (codes "selector") null o))
          (codes "selector must be a non-empty string")
          (tested_in_set (is_among actions (field (codes "action") null o))
            (codes "action must be one of ['allow', 'autocorrect', 'block']")
            (tested (is_reason (field (codes "reason") (str []) o))
              (codes "reason must be a string if provided")
              (tested (is_confidence (field (codes "confidence") (int 1) o))
                (codes "confidence must be a number between 0 and 1")
                (tested (is_flag (field (codes "enabled") (bool true) o))
                  (codes "enabled must be boolean if provided")
                  (tested (is_envs (field (codes "apply_in_envs") null o))
                    (codes "apply_in_envs must be a list of strings")
                    (tested (is_count (field (codes "min_hits_to_enforce") (int 0) o))
                      (codes "min_hits_to_enforce must be a non-negative integer") valid))))))))

abbrev pub text_or_empty : Json → Text
text_or_empty (str s) = s
text_or_empty _ = []

-- `raw.get("id")` of a valid rule
unfoldable pub id_of : Raw → Text
id_of none = []
id_of (some o) = text_or_empty (field (codes "id") null o)

-- `Rule` of src/api.py as `main` imports it: not at all, on the `BaseModel` that src/api.py puts in the place
-- of a missing pydantic, or on pydantic's, which makes a rule of an object, with its id, or raises
-- ValidationError.
pub data RuleClass : Type 0 where
  not_imported : RuleClass
  shim : RuleClass
  pydantic : (Dict Json → Option Text) → RuleClass

-- The id of a rule: a JSON value, or the `...` that the class has under `id` on the `BaseModel` of src/api.py.
abbrev pub Rid : Type 0
Rid = Option Json

-- What one round of the loop makes of a rule.
pub data Made : Type 0 where
  made : Rid → Made
  not_valid : Made
  raises : Made

-- With the `BaseModel` of src/api.py, ValidationError is Exception: that something is no object, or has a key
-- `self`, is caught, and every other object is a rule. Keys that Python has a meaning for (`__class__`)
-- are left aside.
unfoldable pub make_shim : Raw → Made
unfolding Dict.get
make_shim none = not_valid
make_shim (some o) =
    if is_some (Dict.get (codes "self") o) then not_valid else made (Dict.get (codes "id") o)

-- The rule of an object, or the exception; `Rule(**raw)` of what is no object raises TypeError, which is
-- no ValidationError.
unfoldable pub make_rule : RuleClass → Raw → Made
unfolding validate_rule id_of make_shim
make_rule not_imported r = elim (validate_rule r) [
  | raised ↦ raises
  | invalid message ↦ not_valid
  | valid ↦ made (some (str (id_of r)))
]
make_rule shim r = make_shim r
make_rule (pydantic make) none = raises
make_rule (pydantic make) (some o) = elim (make o) [
  | none ↦ not_valid
  | some id ↦ made (some (str id))
]

-- a list or an object cannot be in a set
abbrev pub hashable : Rid → Bool
hashable (some (list l)) = false
hashable (some object) = false
hashable _ = true

-- the sign, the units and the scale of what Python takes for a number
abbrev pub numeric : Json → Option (Bool × ℕ × ℕ)
numeric (bool b) = some (false, if b then 1 else 0, 0)
numeric (int n) = some (false, n, 0)
numeric (negative n) = some (true, suc n, 0)
numeric (float x) = some (x.negative, x.units, x.scale)
numeric _ = none

abbrev pub same_number : Bool × ℕ × ℕ → Bool × ℕ × ℕ → Bool
same_number (s, u, a) (t, v, b) = u * 10 ^ b == v * 10 ^ a && (u == 0 || (if s then t else not t))

-- `==` of ids that are no list and no object
unfoldable pub same_id : Rid → Rid → Bool
unfolding text_eq
same_id none none = true
same_id (some (str s)) (some (str t)) = text_eq s t
same_id (some null) (some null) = true
same_id (some a) (some b) = elim (numeric a) [
  | none ↦ false
  | some x ↦ elim (numeric b) [ none ↦ false | some y ↦ same_number x y ]
]
same_id _ _ = false

-- `rid in seen_ids`
abbrev pub is_seen : Rid → List Rid → Bool
is_seen rid = any (same_id rid)

abbrev pub counted : Bool → ℕ → ℕ
counted repeated errors = if repeated then suc errors else errors

-- The loop over the rules: the number of errors; `none` is an exception that is not caught.
unfoldable pub count_errors : RuleClass → List Rid → List Raw → Option ℕ
unfolding make_rule same_id
count_errors cls seen_ids [] = some 0
count_errors cls seen_ids (r ∷ rs) = elim (make_rule cls r) [
  | raises ↦ none
  | not_valid ↦ Option.map suc (count_errors cls seen_ids rs)
  | made rid ↦
      let rest =
        Option.map (counted (is_seen rid seen_ids)) (count_errors cls (rid ∷ seen_ids) rs) in
      if hashable rid then rest else none
]

-- The ids in `seen_ids` behind the loop.
unfoldable pub seen_after : RuleClass → List Rid → List Raw → List Rid
unfolding make_rule same_id
seen_after cls seen_ids [] = seen_ids
seen_after cls seen_ids (r ∷ rs) =
    let passed = seen_after cls seen_ids rs in
    elim (make_rule cls r) [
      | raises ↦ passed
      | not_valid ↦ passed
      | made rid ↦
          let added = seen_after cls (rid ∷ seen_ids) rs in
          if is_seen rid seen_ids then passed else added
    ]

-- What is at the path.
pub data RulesJson : Type 0 where
  missing : RulesJson
  unreadable : RulesJson
  not_list : RulesJson
  rules : List Raw → RulesJson

-- How the script ends: an exit code, the number of rules that it prints, or an exception.
pub data Exit : Type 0 where
  exits : ℕ → Exit
  validation_ok : ℕ → Exit
  exception : Exit

unfoldable pub main : RuleClass → RulesJson → Exit
unfolding count_errors seen_after
main cls missing = exits 1
main cls unreadable = exits 1
main cls not_list = exits 1
main cls (rules raws) = elim (count_errors cls [] raws) [
  | none ↦ exception
  | some errors ↦
      if not (errors == 0) then exits 2 else validation_ok (length (seen_after cls [] raws))
]
