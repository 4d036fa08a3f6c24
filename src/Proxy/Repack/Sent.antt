-- ===== src/Proxy/Repack/Sent.antt =====
-- What the server reads of a payload that RPC_REPACK_BUILDER built.
use sqlum_ai.Common.{
  ◌<◌, ◌≡◌, refl, ap, ◌∙◌, true, Bool-cases, Option, some, List, [], ◌∷◌, map, All, length,
  Option-cases, inl, inr, subst,
}
use sqlum_ai.Common.Text.{Text, codes, lower, text_eq}
use sqlum_ai.Common.Text.Laws.{text_eq_iff}
use sqlum_ai.Common.Dict
use sqlum_ai.Common.Dict.{Dict, get_or, get-empty}
use sqlum_ai.Policy.Loader.{one_of}
use sqlum_ai.Tds.Utf16.{Bytes, encode_ignore}
use sqlum_ai.Tds.RpcBuild.{Param, build_rpc_payload}
use sqlum_ai.Tds.RpcBuild.Wire.{read_payload, wire, wire_name, IsSimple}
use sqlum_ai.Tds.RpcBuild.ReadBack.{read_payload-build_rpc_payload}
use sqlum_ai.Tds.RpcTypes.{TypesFile, load_param_types}
use sqlum_ai.Normalizers.{suggest_normalizations}
use sqlum_ai.Normalizers.Kinds.{kinds, OfOne, suggest_normalizations-OfOne}
use sqlum_ai.Tds.RpcBuild.Builds.{ParamFits, nvarchar_fits, build_rpc_payload-Builds}
use sqlum_ai.Proxy.Suggested.{suggested}
use sqlum_ai.Proxy.State.{Settings}
use sqlum_ai.Proxy.Repack.{inferred_type, built_type, param_type, mapped, proc_or_default, rebuilt}

inferred_type-suggested :
    (p : Settings) (value : Text)
    → p.suggest_normalizations ≡ suggested
    → inferred_type p value ≡ codes "nvarchar"
unfolding inferred_type suggested
inferred_type-suggested p value h = elim (Option-cases (suggest_normalizations value)) [
  | inr e ↦ rw (inferred_type, h, suggested, e) refl
  | inl ((v, kind), e) ↦
      let listed : one_of kind kinds ≡ true = subst OfOne e (suggest_normalizations-OfOne value) in
      elim (Bool-cases (text_eq kind (codes "int"))) [
        | inr other ↦ rw (inferred_type, h, suggested, e, other) refl
        | inl int ↦ absurd (no_int (rw ((text_eq_iff kind (codes "int")).0 int) at listed))
      ]
]
  where
    no_int : one_of (codes "int") kinds ≡ true → ⊥
    no_int h = unfold text_eq in cc

abbrev pub as_nvarchar : Text × Text → Param
as_nvarchar (name, value) = (name, value, codes "nvarchar")

type_undeclared :
    (p : Settings) (name value : Text)
    → p.suggest_normalizations ≡ suggested
    → param_type p [] name value ≡ some (codes "nvarchar")
unfolding param_type
type_undeclared p name value h = ap some (inferred_type-suggested p value h)

mapped_undeclared :
    (p : Settings) (params : List (Text × Text))
    → p.suggest_normalizations ≡ suggested
    → mapped p [] params ≡ some (map as_nvarchar params)
unfolding mapped
mapped_undeclared p [] h = refl
mapped_undeclared p ((name, value) ∷ params) h =
    rw (mapped, type_undeclared p name value h, mapped_undeclared p params h)
      (unfold built_type lower text_eq in refl)

rebuilt-mapped :
    (p : Settings) (proc : Option Text) (params : List (Text × Text)) (ps : List Param)
    → p.repack_builder ≡ true
    → p.param_types ≡ TypesFile.missing
    → mapped p [] params ≡ some ps
    → rebuilt p proc params ≡ build_rpc_payload p.fromisoformat (proc_or_default proc) ps
unfolding rebuilt load_param_types
rebuilt-mapped p proc params ps on no_file m =
    let name = lower (proc_or_default proc) in
    let no_types : get_or [] (Dict.get name (load_param_types p.param_types)) ≡ [] =
      ap (λ t. get_or [] (Dict.get name (load_param_types t))) no_file
      ∙ (unfold Dict.get in refl) in
    rw (rebuilt, no_types, m, on) refl

-- The value takes less than 65536 bytes.
abbrev pub IsShort : Text × Text → Type 0
IsShort (name, value) = length (encode_ignore value) < 65536

nvarchar_fit :
    (params : List (Text × Text)) → All IsShort params → All ParamFits (map as_nvarchar params)
nvarchar_fit [] h = tt
nvarchar_fit ((name, value) ∷ params) (hv, h) =
    (nvarchar_fits (unfold lower in refl) hv, nvarchar_fit params h)

-- With RPC_REPACK_BUILDER on, the normalizers of agents/normalizers.py and no file of types, the builder
-- raises no exception for parameters whose values take less than 65536 bytes, and the payload is
-- read back with each of them as NVARCHAR: none is ever taken for an INT.
pub rebuilt_undeclared :
    (p : Settings) (proc : Option Text) (params : List (Text × Text))
    → p.repack_builder ≡ true
    → p.suggest_normalizations ≡ suggested
    → p.param_types ≡ TypesFile.missing
    → All IsShort params
    → (b : Bytes) × (rebuilt p proc params ≡ some b)
      × (read_payload b
          ≡ some (wire_name (proc_or_default proc), map (λ q. wire (as_nvarchar q)) params))
rebuilt_undeclared p proc params on h no_file short =
    let name = proc_or_default proc in
    let ps = map as_nvarchar params in
    let (b, e) = build_rpc_payload-Builds p.fromisoformat name ps (nvarchar_fit params short) in
    (
      b,
      rebuilt-mapped p proc params ps on no_file (mapped_undeclared p params h) ∙ e,
      read_payload-build_rpc_payload p.fromisoformat name ps b (nvarchar_simple params) e
          ∙ ap (λ l. some (wire_name name, l)) (map_twice params),
    )
  where
    nvarchar_simple : (qs : List (Text × Text)) → All IsSimple (map as_nvarchar qs)
    nvarchar_simple [] = tt
    nvarchar_simple (q ∷ qs) = (unfold lower text_eq in refl, nvarchar_simple qs)

    map_twice :
        (qs : List (Text × Text))
        → map wire (map as_nvarchar qs) ≡ map (λ q. wire (as_nvarchar q)) qs
    map_twice [] = refl
    map_twice (q ∷ qs) = ap (λ l. wire (as_nvarchar q) ∷ l) (map_twice qs)
