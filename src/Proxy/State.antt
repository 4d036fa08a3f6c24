-- ===== src/Proxy/State.antt =====
-- What the proxy keeps for a connection, the files that it shares with the rest of the program, and
-- the settings, which the environment variables do not change while the connection lasts.
use sqlum_ai.Common.{
  ℕ, suc, ◌+◌, ◌/◌, ◌%◌, Bool, Option, none, some, List, ◌∷◌, length, if◌then◌else◌,
}
use sqlum_ai.Common.Text.{Text, codes, text_eq, nonempty}
use sqlum_ai.Metrics.Decisions.{Value, Decision, Log, str, null, lines, append}
use sqlum_ai.Metrics.Store.{File, inc, inc_rule_action}
use sqlum_ai.Policy.Engine.{PolicyEngine}
use sqlum_ai.Tds.Utf16.{Bytes}
use sqlum_ai.Tds.RpcBuild.Temporal.{Datetime}
use sqlum_ai.Tds.RpcTypes.{TypesFile}

-- What `suggest_normalizations` returns, without the hint.
pub record Suggestion : Type 0 where
  pub kind : Text
  pub normalized : Text

-- `fromisoformat` is Python's `datetime.fromisoformat`, and `clock n` the time at which the log's line
-- `n` is written. `repack_builder` is RPC_REPACK_BUILDER.
pub record Settings : Type 0 where
  pub engine : PolicyEngine
  pub suggest_normalizations : Text → Option Suggestion
  pub repack_builder : Bool
  pub param_types : TypesFile
  pub fromisoformat : Text → Option Datetime
  pub clock : ℕ → Text
  pub enforcement : Text
  pub max_rewrite_bytes : ℕ
  pub inplace : Bool
  pub truncate : Bool

-- The metrics and the log of decisions.
pub record World : Type 0 where
  pub metrics : File
  pub log : Log

-- `counter`: the chunks of a batch and of an RPC, the bytes of no whole packet yet, and the number of
-- bytes forwarded.
pub record Conn : Type 0 where
  pub sql_chunks : List Bytes
  pub rpc_chunks : List Bytes
  pub c2s_buf : Bytes
  pub sent : ℕ

-- A round's `out_passthrough` with the rest of the state.
pub record Session : Type 0 where
  pub conn : Conn
  pub world : World
  pub out : Bytes

-- What the handling of a packet ends in: `raised` is the exception that the round catches.
pub data Step : Type 0 where
  went : Session → Step
  raised : Session → Step

-- `enforcement == "enforce"`
unfoldable pub enforces : Settings → Bool
enforces p = text_eq p.enforcement (codes "enforce")

-- `metrics_store.inc(key)`
unfoldable pub count : Text → World → World
count key w = record w { metrics = inc key 1 w.metrics }

-- `if rule_id: metrics_store.inc_rule_action(rule_id, action)`
unfoldable pub count_rule : Option Text → Text → World → World
count_rule none action w = w
count_rule (some id) action w =
    if nonempty id then record w { metrics = inc_rule_action id action 1 w.metrics } else w

-- `dec_store.append`
unfoldable pub note : Settings → Decision → World → World
note p d w = record w { log = append (p.clock (length (lines w.log))) d w.log }

abbrev pub str_or_null : Option Text → Value
str_or_null none = null
str_or_null (some s) = str s

-- The header that the proxy writes, and the payload behind it. `& 0xFF` keeps the last byte.
unfoldable pub packed : ℕ → ℕ → Bytes → Bytes
packed typ spid payload =
    let length_new = 8 + length payload in
    typ
    ∷ (1
        ∷ ((length_new / 256 % 256)
            ∷ ((length_new % 256) ∷ ((spid / 256 % 256) ∷ ((spid % 256) ∷ (1 ∷ (0 ∷ payload)))))))

-- `status & EOM`
unfoldable pub is_eom : ℕ → Bool
is_eom status = elim (status % 2) [ ℕ.zero ↦ Bool.false | suc n ↦ Bool.true ]
