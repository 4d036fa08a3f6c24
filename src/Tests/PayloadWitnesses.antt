-- ===== src/Tests/PayloadWitnesses.antt =====
-- The theorems on src/tds/rpc_build.py and on the payload that the proxy builds, at concrete parameters.
use sqlum_ai.Common.{◌≡◌, refl, true, false, none, some, List, [], ◌∷◌, map, arith, All, Option}
use sqlum_ai.Common.Text.{Text, codes, text_eq, lower}
use sqlum_ai.Policy.Engine.{new_engine}
use sqlum_ai.Tds.Utf16.{Bytes, encode_ignore}
use sqlum_ai.Tds.RpcBuild.{Param, build_rpc_payload}
use sqlum_ai.Tds.RpcBuild.Temporal.{Datetime}
use sqlum_ai.Tds.RpcBuild.Wire.{IsSimple, read_payload, wire, wire_name}
use sqlum_ai.Tds.RpcBuild.ReadBack.{read_payload-build_rpc_payload}
use sqlum_ai.Tds.RpcBuild.Builds.{
  ParamFits, date_fits, nvarchar_fits, Builds, build_rpc_payload-Builds,
}
use sqlum_ai.Tds.RpcTypes.{TypesFile}
use sqlum_ai.Proxy.State.{Settings, Session}
use sqlum_ai.Metrics.Store.{missing}
use sqlum_ai.Proxy.Suggested.{suggested}
use sqlum_ai.Tests.Samples.{sample_rules}

abbrev no_iso : Text → Option Datetime
no_iso s = none

abbrev params : List Param
params = (codes "Age", codes "-5", codes "INT") ∷ (codes "@P", codes "å", codes "nvarchar") ∷ []

abbrev payload : Bytes
payload =
    1 ∷ 0x78 ∷ 0 ∷ 0 ∷ 4 ∷ 0x40 ∷ 0x41 ∷ 0x67 ∷ 0x65 ∷ 0 ∷ 0 ∷ 0 ∷ 0 ∷ 0 ∷ 0 ∷ 0 ∷ 0x26 ∷ 4 ∷ 4
    ∷ 0xfb ∷ 0xff ∷ 0xff ∷ 0xff ∷ 2 ∷ 0x40 ∷ 0x50 ∷ 0 ∷ 0 ∷ 0 ∷ 0 ∷ 0 ∷ 0 ∷ 0 ∷ 0xe7 ∷ 0x40 ∷ 0x1f
    ∷ 9 ∷ 4 ∷ 0 ∷ 0 ∷ 0 ∷ 2 ∷ 0 ∷ 0xe5 ∷ 0 ∷ []

built_payload : build_rpc_payload no_iso (codes "x") params ≡ some payload
unfolding build_rpc_payload
built_payload = refl

read_payload-build_rpc_payload_example :
    read_payload payload ≡ some (wire_name (codes "x"), map wire params)
read_payload-build_rpc_payload_example =
    read_payload-build_rpc_payload no_iso (codes "x") params payload simple built_payload
  where
    simple : All IsSimple params
    simple = unfold lower text_eq in (refl, (refl, tt))

build_rpc_payload-Builds_example : Builds (
    build_rpc_payload no_iso (codes "x") (
      (codes "D", codes "2024-02-30", codes "date")
      ∷ (codes "N", codes "a", codes "nvarchar")
      ∷ []))
build_rpc_payload-Builds_example =
    build_rpc_payload-Builds no_iso (codes "x")
      ((codes "D", codes "2024-02-30", codes "date")
        ∷ (codes "N", codes "a", codes "nvarchar")
        ∷ [])
      fit
  where
    fit : All ParamFits (
        (codes "D", codes "2024-02-30", codes "date")
        ∷ (codes "N", codes "a", codes "nvarchar")
        ∷ [])
    fit = (
      date_fits (unfold lower in refl),
      (nvarchar_fits (unfold lower in refl) (unfold encode_ignore in omega arith), tt),
    )

-- Settings with RPC_REPACK_BUILDER on and no file of types.
abbrev repacking : Settings
repacking = record {
  engine = new_engine sample_rules none;
  suggest_normalizations = suggested;
  repack_builder = true;
  param_types = TypesFile.missing;
  fromisoformat = no_iso;
  clock = λ n. codes "2025-01-01";
  enforcement = codes "enforce";
  max_rewrite_bytes = 131072;
  inplace = true;
  truncate = false;
}

abbrev request : Bytes
request = encode_ignore (codes "Save @Phone='070-123 45 67'")

abbrev new_session : Session
new_session = record {
  conn = record { sql_chunks = []; rpc_chunks = []; c2s_buf = []; sent = 0 };
  world = record { metrics = missing; log = none };
  out = [];
}
