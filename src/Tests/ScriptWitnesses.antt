-- ===== src/Tests/ScriptWitnesses.antt =====
-- The theorems on scripts/validate_rules.py at a concrete file.
use sqlum_ai.Common.{◌≡◌, refl, Option, none, some, List, [], ◌∷◌, length, map}
use sqlum_ai.Common.Text.{Text, codes, text_eq}
use sqlum_ai.Common.Dict
use sqlum_ai.Common.Dict.{Dict}
use sqlum_ai.Policy.Loader.{load_entry, load_entries}
use sqlum_ai.Scripts.Validate.{
  Json, str, int, Raw, valid, invalid, raised, validate_rule, not_imported, shim, make_rule,
  make_shim, same_id, count_errors, seen_after, id_of, rules, validation_ok, main,
}
use sqlum_ai.Scripts.Validate.Taken.{entry_of, load_entries-main}

abbrev phone_object : Text → Dict Json
phone_object id =
    (codes "id", str id)
    ∷ (codes "target", str (codes "column"))
    ∷ (codes "selector", str (codes "Phone"))
    ∷ (codes "action", str (codes "autocorrect"))
    ∷ (codes "confidence", int 1)
    ∷ []

abbrev two_rules : List Raw
two_rules = some (phone_object (codes "a")) ∷ some (phone_object (codes "b")) ∷ []

two_rules_pass : main not_imported (rules two_rules) ≡ validation_ok 2
unfolding main count_errors seen_after make_rule validate_rule id_of same_id Dict.get text_eq
two_rules_pass = refl

-- Of a pydantic that takes the id of a rule that passes the script's own tests.
abbrev make : Dict Json → Option Text
make o = elim (validate_rule (some o)) [
  | valid ↦ some (id_of (some o))
  | invalid message ↦ none
  | raised ↦ none
]

-- The `BaseModel` of src/api.py accepts an object that is no rule, and the loader takes none of it.
abbrev no_rule : List Raw
no_rule = some ((codes "id", str (codes "a")) ∷ []) ∷ []

shim_accepts : main shim (rules no_rule) ≡ validation_ok 1
unfolding main count_errors seen_after make_rule make_shim same_id Dict.get text_eq
shim_accepts = refl

shim_loads_none : load_entries (map entry_of no_rule) ≡ []
unfolding load_entries load_entry Dict.get text_eq
shim_loads_none = refl

load_entries-main_example : length (load_entries (map entry_of two_rules)) ≡ 2
unfolding text_eq
load_entries-main_example =
    load_entries-main not_imported two_rules 2 tt two_rules_pass (refl, (refl, tt))
