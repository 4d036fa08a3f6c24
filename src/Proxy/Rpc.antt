-- ===== src/Proxy/Rpc.antt =====
-- A whole RPC: the decisions on its parameters, and the rewriting of its payload in place.
pub mod Replaced
pub mod Rewritten
pub mod Rebuilt
use sqlum_ai.Common.{
  ℕ, ◌+◌, ◌-◌, ◌/◌, Bool, true, false, ◌&&◌, ◌||◌, Option, none, some, List, [], ◌∷◌, ◌++◌, take,
  drop, length, concat, replicate, ltb, if◌then◌else◌,
}
use mathlib.Core.Option
use sqlum_ai.Common.Text.{Text, codes, text_eq, nonempty, starts_with}
use sqlum_ai.Common.Dict.{get_or}
use sqlum_ai.Metrics.Decisions.{Decision, str, int}
use sqlum_ai.Policy.Engine.{Event, PolicyDecision, decide}
use sqlum_ai.Tds.Utf16.{Bytes, encode_ignore}
use sqlum_ai.Tds.RpcParse.{extract_proc_and_params}
use sqlum_ai.Proxy.Repack.{rebuilt}
use sqlum_ai.Proxy.State.{
  Settings, World, Conn, Session, Step, went, enforces, count, count_rule, note, str_or_null,
  packed, is_eom,
}

-- `payload.replace(old, new, 1)`; `none` where `old in payload` is false
unfoldable pub replace_once : Bytes → Bytes → Bytes → Option Bytes
unfolding starts_with
replace_once old new [] = if starts_with [] old then some new else none
replace_once old new (b ∷ s) =
    let later = replace_once old new s in
    if starts_with (b ∷ s) old
    then some (new ++ drop (length old) (b ∷ s))
    else Option.map (λ t. b ∷ t) later

abbrev pub param_event : Text → Text → Event
param_event name val = record {
  database = none;
  user = none;
  sql_text = none;
  table = none;
  column = some name;
  value = some val;
}

abbrev pub param_note : ℕ → PolicyDecision → Text → Text → Decision
param_note spid d name val =
    (codes "spid", int spid)
    ∷ (codes "action", str d.action)
    ∷ (codes "rule_id", str_or_null d.rule_id)
    ∷ (codes "reason", str d.reason)
    ∷ (codes "param", str name)
    ∷ (codes "value", str (take 80 val))
    ∷ []

abbrev pub rewrite_note : ℕ → PolicyDecision → Text → Text → Text → Decision
rewrite_note spid d name before after =
    (codes "spid", int spid)
    ∷ (codes "action", str (codes "rpc_autocorrect_inplace"))
    ∷ (codes "rule_id", str_or_null d.rule_id)
    ∷ (codes "reason", str d.reason)
    ∷ (codes "param", str name)
    ∷ (codes "before", str before)
    ∷ (codes "after", str after)
    ∷ []

-- The first loop over the parameters: is one of them blocked?
unfoldable pub judge_params : Settings → ℕ → List (Text × Text) → World → World × Bool
judge_params p spid [] w = (w, false)
judge_params p spid ((name, val) ∷ params) w =
    let d = decide p.engine (param_event name val) in
    let rest = judge_params p spid params (note p (param_note spid d name val) w) in
    (rest.0, text_eq d.action (codes "block") || rest.1)

-- `" " * pad` in UTF-16LE
unfoldable pub blanks : ℕ → Bytes
blanks pad = concat (replicate pad (32 ∷ 0 ∷ []))

-- The new bytes in the room of the old: cut or padded; `none` where they are longer and may not be
-- cut.
unfoldable pub fitted : Settings → Bytes → Bytes → Option Bytes
unfolding blanks
fitted p old new =
    if ltb (length old) (length new)
    then (if p.truncate then some (take (length old) new) else none)
    else some (new ++ blanks ((length old - length new) / 2))

-- One round of the second loop; `none` where it goes on without a change.
unfoldable pub rewrite_param : Settings → ℕ → Text → Text → World → Bytes → Option (World × Bytes)
unfolding fitted replace_once
rewrite_param p spid name val w payload =
    let d = decide p.engine (param_event name val) in
    if text_eq d.action (codes "autocorrect")
    then elim (p.suggest_normalizations val) [
      | none ↦ none
      | some sug ↦
          if nonempty sug.normalized
          then elim (fitted p (encode_ignore val) (encode_ignore sug.normalized)) [
            | none ↦ none
            | some new_b ↦ elim (replace_once (encode_ignore val) new_b payload) [
              | none ↦ none
              | some rewritten ↦ some (
                count_rule d.rule_id (codes "rpc_autocorrect_inplace") (
                    count (codes "rpc_autocorrect_inplace")
                      (note p (rewrite_note spid d name val sug.normalized) w)),
                rewritten,
              )
            ]
          ]
          else none
    ]
    else none

-- The second loop: the payload, and whether it was rewritten.
unfoldable pub rewrite_params :
    Settings → ℕ → List (Text × Text) → World → Bytes → Bool → World × (Bytes × Bool)
rewrite_params p spid [] w payload changed = (w, (payload, changed))
rewrite_params p spid ((name, val) ∷ params) w payload changed =
    elim (rewrite_param p spid name val w payload) [
      | none ↦ rewrite_params p spid params w payload changed
      | some r ↦ rewrite_params p spid params r.0 r.1 true
    ]

abbrev pub has_params : List (Text × Text) → Bool
has_params [] = false
has_params (x ∷ xs) = true

abbrev pub sends : Bytes → Session → Session
sends bytes s = record s { out = s.out ++ bytes }

abbrev pub with_world : World → Session → Session
with_world w s = record s { world = w }

-- The in-place branch of an RPC that is not blocked.
unfoldable pub rewrite_rpc :
    Settings → ℕ → Bytes → Bytes → Option Text → List (Text × Text) → Session → Session
unfolding rewrite_params packed rebuilt
rewrite_rpc p spid raw payload proc params s =
    let r = rewrite_params p spid params s.world payload false in
    if r.1.1
    then sends (packed 3 spid (get_or r.1.0 (rebuilt p proc params))) (with_world r.0 s)
    else sends raw (with_world r.0 s)

-- The last packet of an RPC has come: `raw` is that packet, `payload` the payload of them all.
unfoldable pub complete_rpc : Settings → ℕ → Bytes → Bytes → Session → Session
unfolding rewrite_rpc judge_params
complete_rpc p spid raw payload s =
    let found = extract_proc_and_params payload in
    let judged = judge_params p spid found.1 (count (codes "rpc_seen") s.world) in
    if judged.1 && enforces p
    then with_world (count (codes "rpc_blocked") judged.0) s
    else if p.inplace && enforces p && has_params found.1
    then rewrite_rpc p spid raw payload found.0 found.1 (with_world judged.0 s)
    else sends raw (with_world judged.0 s)

abbrev pub with_rpc_chunks : List Bytes → Session → Session
with_rpc_chunks chunks s = record s { conn = record s.conn { rpc_chunks = chunks } }

unfoldable pub handle_rpc : Settings → ℕ → ℕ → Bytes → Bytes → Session → Step
unfolding complete_rpc is_eom
handle_rpc p spid status raw payload s =
    let chunks = s.conn.rpc_chunks ++ payload ∷ [] in
    if is_eom status
    then went (complete_rpc p spid raw (concat chunks) (with_rpc_chunks [] s))
    else went (with_rpc_chunks chunks s)
