-- ===== src/Policy/Loader.antt =====
-- src/policy/loader.py: `load_rules`.
pub mod Sound
use sqlum_ai.Common.{
  Bool, true, false, ◌&&◌, ◌||◌, Option, none, some, List, [], ◌∷◌, any, if◌then◌else◌,
}
use sqlum_ai.Common.Text.{Text, codes, text_eq, lower}
use sqlum_ai.Common.Dict.{get_or}
use sqlum_ai.Policy.Engine.{Number, one_point_zero, Rule}

-- What an object has under a key that the loader checks: `other` is a value that is no text, with
-- its truth.
pub data Field : Type 0 where
  absent : Field
  null : Field
  text : Text → Field
  other : Bool → Field

-- An object of the rules file. The keys that the loader does not check hold values of the types
-- that the dataclass declares, or are absent; `extras` are the keys that the dataclass lacks.
pub record RawRule : Type 0 where
  pub id : Option Text
  pub target : Field
  pub selector : Field
  pub action : Field
  pub reason : Option Text
  pub confidence : Option Number
  pub enabled : Option Bool
  pub extras : List Text

pub data Entry : Type 0 where
  object : RawRule → Entry
  not_object : Entry

-- The file at `rules_path`: not there, no JSON (or a JSON scalar, which cannot be iterated), or the
-- entries that the loop goes over.
pub data RulesFile : Type 0 where
  missing : RulesFile
  invalid : RulesFile
  entries : List Entry → RulesFile

-- `(r.get(k) or "").lower()`; `none` is the exception of a value that has no `lower`
unfoldable pub lowered : Field → Option Text
lowered absent = some []
lowered null = some []
lowered (text s) = some (lower s)
lowered (other false) = some []
lowered (other true) = none

abbrev pub targets : List Text
targets = codes "table" ∷ codes "column" ∷ codes "pattern" ∷ []

abbrev pub actions : List Text
actions = codes "allow" ∷ codes "block" ∷ codes "autocorrect" ∷ []

-- `s in (…)`
abbrev pub one_of : Text → List Text → Bool
one_of s = any (λ t. text_eq s t)

-- `Rule(**r)`: `none` is the TypeError of a missing `id` or of a key that is no field
unfoldable pub build : RawRule → Text → Text → Text → Option Rule
build r target selector action = elim r.extras [
  | k ∷ ks ↦ none
  | [] ↦ elim r.id [
    | none ↦ none
    | some id ↦ some (record {
      id = id;
      target = target;
      selector = selector;
      action = action;
      reason = get_or [] r.reason;
      confidence = get_or one_point_zero r.confidence;
      enabled = get_or true r.enabled;
      apply_in_envs = none;
      min_hits_to_enforce = none;
    })
  ]
]

-- `Rule(**r)` of an object whose three checked keys hold texts
unfoldable pub build_fields : RawRule → Field → Field → Field → Option Rule
unfolding build
build_fields r (text t) (text s) (text a) = build r t s a
build_fields r _ _ _ = none

-- One round of the loop; `none` where the entry is passed over.
unfoldable pub load_entry : Entry → Option Rule
unfolding lowered build_fields
load_entry not_object = none
load_entry (object r) = elim (lowered r.target) [
  | none ↦ none
  | some tgt ↦ elim (lowered r.action) [
    | none ↦ none
    | some act ↦
        if one_of tgt targets
        then (if one_of act actions then build_fields r r.target r.selector r.action else none)
        else none
  ]
]

unfoldable pub load_entries : List Entry → List Rule
unfolding load_entry
load_entries [] = []
load_entries (e ∷ es) =
    let rest = load_entries es in elim (load_entry e) [ none ↦ rest | some r ↦ r ∷ rest ]

-- `none` is the exception that reading the file raises
unfoldable pub load_rules : RulesFile → Option (List Rule)
unfolding load_entries
load_rules missing = some []
load_rules invalid = none
load_rules (entries es) = some (load_entries es)
