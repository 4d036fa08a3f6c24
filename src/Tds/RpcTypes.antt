-- ===== src/Tds/RpcTypes.antt =====
-- src/tds/rpc_types.py: the types that a file declares for the parameters of procedures.
use sqlum_ai.Common.{List, [], ◌∷◌, Option, none, some, ◌==◌}
use sqlum_ai.Common.Text.{Text, lower, lstrip_by}
use sqlum_ai.Common.Dict
use sqlum_ai.Common.Dict.{Dict}
use sqlum_ai.Policy.Loader.{Field}

-- The file at RPC_PARAM_TYPES_PATH: not there, no JSON object, or the procedures with what stands under
-- each: its parameters with their types, or `none` for what is no object.
pub data TypesFile : Type 0 where
  missing : TypesFile
  invalid : TypesFile
  procedures : List (Text × Option (Dict Field)) → TypesFile

-- `k.lstrip("@").lower()`
unfoldable pub param_key : Text → Text
unfolding lower lstrip_by
param_key k = lower (lstrip_by (λ c. c == b'@') k)

-- `{k.lstrip("@").lower(): v for k, v in mp.items()}`, behind the entries that are there
unfoldable pub keyed : Dict Field → Dict Field → Dict Field
unfolding Dict.put param_key
keyed d [] = d
keyed d ((k, v) ∷ mp) = keyed (Dict.put (param_key k) v d) mp

-- The loop over the procedures; `none` is the exception of what is no object.
unfoldable pub load_procedures :
    Dict (Dict Field) → List (Text × Option (Dict Field)) → Option (Dict (Dict Field))
unfolding keyed Dict.put lower
load_procedures d [] = some d
load_procedures d ((proc, none) ∷ ps) = none
load_procedures d ((proc, some mp) ∷ ps) =
    load_procedures (Dict.put (lower proc) (keyed [] mp) d) ps

-- Each exception ends in no types at all.
unfoldable pub load_param_types : TypesFile → Dict (Dict Field)
unfolding load_procedures
load_param_types missing = []
load_param_types invalid = []
load_param_types (procedures ps) = elim (load_procedures [] ps) [ none ↦ [] | some d ↦ d ]
