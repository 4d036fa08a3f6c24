-- ===== src/Proxy/Rpc/Rebuilt.antt =====
-- What goes out with RPC_REPACK_BUILDER on, of an RPC that was rewritten in place.
use sqlum_ai.Common.{ℕ, ◌≡◌, Bool, true, false}
use sqlum_ai.Common.Text.{Text, codes}
use sqlum_ai.Tds.Utf16.{Bytes}
use sqlum_ai.Tds.RpcParse.{extract_proc_and_params}
use sqlum_ai.Tds.RpcTypes.{TypesFile}
use sqlum_ai.Proxy.State.{Settings, World, count}
use sqlum_ai.Proxy.Suggested.{suggested}
use sqlum_ai.Proxy.Rpc.{judge_params, rewrite_params}

-- RPC_REPACK_BUILDER and the rewriting in place are on, blocks are enforced, the normalizers are those of
-- agents/normalizers.py, and there is no file of types.
pub record Repacks (p : Settings) : Type 0 where
  pub builder : p.repack_builder ≡ true
  pub normalizers : p.suggest_normalizations ≡ suggested
  pub no_types : p.param_types ≡ TypesFile.missing
  pub inplace : p.inplace ≡ true
  pub enforcement : p.enforcement ≡ codes "enforce"

-- The decisions on the parameters of a payload, and whether one is to block.
abbrev pub judged : Settings → ℕ → Bytes → World → World × Bool
judged p spid payload w =
    judge_params p spid (extract_proc_and_params payload).1 (count (codes "rpc_seen") w)

-- The rewriting in place changes the payload of an RPC that is not blocked.
pub record IsCorrected (p : Settings) (spid : ℕ) (payload : Bytes) (w : World) : Type 0 where
  pub free : (judged p spid payload w).1 ≡ false
  pub changed :
      (rewrite_params p spid
        (extract_proc_and_params payload).1
        (judged p spid payload w).0
        payload
        false).1.1
      ≡ true
