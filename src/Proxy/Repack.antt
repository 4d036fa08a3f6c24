-- ===== src/Proxy/Repack.antt =====
-- The payload that RPC_REPACK_BUILDER puts in the place of one rewritten in place.
pub mod Sent
use sqlum_ai.Common.{Bool, true, false, Option, none, some, List, [], ◌∷◌, if◌then◌else◌}
use sqlum_ai.Common.Text.{Text, codes, text_eq, nonempty, lower}
use sqlum_ai.Common.Dict
use sqlum_ai.Common.Dict.{Dict, get_or}
use sqlum_ai.Policy.Loader.{Field, one_of}
use sqlum_ai.Tds.Utf16.{Bytes}
use sqlum_ai.Tds.RpcBuild.{Param, build_rpc_payload}
use sqlum_ai.Tds.RpcTypes.{load_param_types, param_key}
use sqlum_ai.Proxy.State.{Settings, Suggestion}

-- `"int" if k == "int" else "nvarchar"`, where `k` is the kind of the suggestion, if there is one
unfoldable pub inferred_type : Settings → Text → Text
unfolding text_eq
inferred_type p value = elim (p.suggest_normalizations value) [
  | none ↦ codes "nvarchar"
  | some sug ↦ if text_eq sug.kind (codes "int") then codes "int" else codes "nvarchar"
]

abbrev pub built_types : List Text
built_types = codes "nvarchar" ∷ codes "int" ∷ codes "bit" ∷ []

-- `t.lower() if t.lower() in ("nvarchar", "int", "bit") else "nvarchar"`
unfoldable pub built_type : Text → Text
unfolding lower text_eq
built_type t = if one_of (lower t) built_types then lower t else codes "nvarchar"

-- The type of a parameter: the declared one, or the inferred one where none is (or a false value);
-- `none` is the exception of a value that has no `lower`.
unfoldable pub param_type : Settings → Dict Field → Text → Text → Option Text
unfolding Dict.get param_key inferred_type
param_type p proc_map name value = elim (Dict.get (param_key name) proc_map) [
  | none ↦ some (inferred_type p value)
  | some declared ↦ elim declared [
    | Field.absent ↦ some (inferred_type p value)
    | Field.null ↦ some (inferred_type p value)
    | Field.text t ↦ some (if nonempty t then t else inferred_type p value)
    | Field.other truth ↦ if truth then none else some (inferred_type p value)
  ]
]

-- `mapped`
unfoldable pub mapped : Settings → Dict Field → List (Text × Text) → Option (List Param)
mapped p proc_map [] = some []
mapped p proc_map ((name, value) ∷ params) =
    let rest = mapped p proc_map params in
    elim (param_type p proc_map name value) [
      | none ↦ none
      | some t ↦ elim rest [ none ↦ none | some ps ↦ some ((name, value, built_type t) ∷ ps) ]
    ]

-- `proc or "sp_executesql"`
unfoldable pub proc_or_default : Option Text → Text
proc_or_default none = codes "sp_executesql"
proc_or_default (some proc) = if nonempty proc then proc else codes "sp_executesql"

-- `none` where the builder is off, or an exception leaves the payload as it is.
unfoldable pub rebuilt : Settings → Option Text → List (Text × Text) → Option Bytes
unfolding load_param_types Dict.get lower proc_or_default build_rpc_payload
rebuilt p proc params =
    let name = proc_or_default proc in
    let proc_map = get_or [] (Dict.get (lower name) (load_param_types p.param_types)) in
    if p.repack_builder
    then elim (mapped p proc_map params) [
      | none ↦ none
      | some ps ↦ build_rpc_payload p.fromisoformat name ps
    ]
    else none
