-- ===== src/Proxy/Batch.antt =====
-- A whole SQL batch: the decision, the threshold of the rule, and the autocorrection of its values.
pub mod Ungated
pub mod Corrected
pub mod Judged
pub mod Thresholds
use sqlum_ai.Common.{
  ℕ, ◌+◌, ◌==◌, Bool, true, false, not, ◌&&◌, ◌||◌, Option, none, some, List, [], ◌∷◌, ◌++◌, all,
  take, length, ltb, if◌then◌else◌,
}
use sqlum_ai.Common.Text.{Text, codes, text_eq, nonempty}
use sqlum_ai.Common.Dict
use sqlum_ai.Common.Dict.{Dict, get_or}
use sqlum_ai.Metrics.Decisions.{Decision, str, int, num}
use sqlum_ai.Metrics.Store.{Counters, get_rule_counters}
use sqlum_ai.Policy.Engine.{Event, Rule, PolicyDecision, decide, get_rule, or_empty}
use sqlum_ai.Tds.Utf16.{Bytes, encode}
use sqlum_ai.Tds.Parser.{extract_sqlbatch_text}
use sqlum_ai.Tds.Sql.{extract_table_and_columns, extract_values}
use sqlum_ai.Tds.Sql.Multirow.{extract_multirow_values, reconstruct_multirow_insert}
use sqlum_ai.Tds.Sql.Rewrite.{reconstruct_insert, reconstruct_update}
use sqlum_ai.Proxy.State.{
  Settings, World, Conn, Session, Step, went, raised, enforces, count, count_rule, note,
  str_or_null, packed, is_eom,
}

abbrev pub statement_event : Text → Event
statement_event sql = record {
  database = none;
  user = none;
  sql_text = some sql;
  table = none;
  column = none;
  value = none;
}

-- `f"{table}.{col}"`
abbrev pub col_selector : Text → Text → Text
col_selector table col = table ++ b'.' ∷ col

abbrev pub cell_event : Text → Text → Text → Text → Event
cell_event sql table col v = record {
  database = none;
  user = none;
  sql_text = some sql;
  table = some table;
  column = some (col_selector table col);
  value = some v;
}

abbrev pub statement_note : ℕ → PolicyDecision → Text → Decision
statement_note spid d sql =
    (codes "spid", int spid)
    ∷ (codes "action", str d.action)
    ∷ (codes "reason", str d.reason)
    ∷ (codes "confidence", num d.confidence)
    ∷ (codes "rule_id", str_or_null d.rule_id)
    ∷ (codes "sample", str (take 200 sql))
    ∷ []

abbrev pub cell_note : ℕ → PolicyDecision → Text → Text → Text → Decision
cell_note spid d before after column =
    (codes "spid", int spid)
    ∷ (codes "action", str (codes "autocorrect"))
    ∷ (codes "rule_id", str_or_null d.rule_id)
    ∷ (codes "reason", str d.reason)
    ∷ (codes "before", str before)
    ∷ (codes "after", str after)
    ∷ (codes "column", str column)
    ∷ []

-- One value: the value in its place, if there is a new one.
unfoldable pub autocorrect_cell :
    Settings → ℕ → Text → Text → Text → Text → World → World × Option Text
autocorrect_cell p spid sql table col v w =
    let d = decide p.engine (cell_event sql table col v) in
    if text_eq d.action (codes "autocorrect")
    then elim (p.suggest_normalizations v) [
      | none ↦ (w, none)
      | some sug ↦
          if nonempty sug.normalized && not (text_eq sug.normalized v)
          then (
            count_rule d.rule_id (codes "autocorrect") (
                note p (cell_note spid d v sug.normalized (col_selector table col))
                  (count (codes "autocorrect_suggested") w)),
            some sug.normalized,
          )
          else (w, none)
    ]
    else (w, none)

-- The loop over the columns: the new values, and whether one of them is new.
unfoldable pub autocorrect_row :
    Settings → ℕ → Text → Text → List Text → List Text → World → World × (List Text × Bool)
autocorrect_row p spid sql table [] vs w = (w, (vs, false))
autocorrect_row p spid sql table (c ∷ cs) [] w = (w, ([], false))
autocorrect_row p spid sql table (c ∷ cs) (v ∷ vs) w =
    let cell = autocorrect_cell p spid sql table c v w in
    let rest = autocorrect_row p spid sql table cs vs cell.0 in
    (rest.0, (get_or v cell.1 ∷ rest.1.0, elim cell.1 [ none ↦ rest.1.1 | some x ↦ true ]))

-- The loop over the rows.
unfoldable pub autocorrect_rows :
    Settings
    → ℕ
    → Text
    → Text
    → List Text
    → List (List Text)
    → World
    → World × (List (List Text) × Bool)
unfolding autocorrect_row
autocorrect_rows p spid sql table cols [] w = (w, ([], false))
autocorrect_rows p spid sql table cols (r ∷ rs) w =
    let row = autocorrect_row p spid sql table cols r w in
    let rest = autocorrect_rows p spid sql table cols rs row.0 in
    (rest.0, (row.1.0 ∷ rest.1.0, row.1.1 || rest.1.1))

abbrev pub has_items : List Text → Bool
has_items [] = false
has_items (x ∷ xs) = true

-- `multi_rows and table and cols and all(len(r)==len(cols) for r in multi_rows)`
unfoldable pub rows_fit : Option (List (List Text)) → Text → List Text → Option (List (List Text))
rows_fit none table cols = none
rows_fit (some rows) table cols =
    if nonempty table && has_items cols && all (λ r. length r == length cols) rows
    then some rows
    else none

-- `a or b` of optional texts
unfoldable pub or_text : Option Text → Option Text → Option Text
or_text none b = b
or_text (some a) b = if nonempty a then some a else b

-- `if new_sql: sql_text = new_sql`
unfoldable pub replaced : Text → Option Text → Text
unfolding or_text
replaced sql new_sql = get_or sql (or_text new_sql none)

-- The branch of a batch that is not blocked: the text to forward.
unfoldable pub autocorrect : Settings → ℕ → Text → World → World × Text
autocorrect p spid sql w =
    let found = extract_table_and_columns sql in
    let table = or_empty found.0 in
    let cols = found.1 in
    elim (rows_fit (extract_multirow_values sql) table cols) [
      | some rows ↦
          let r = autocorrect_rows p spid sql table cols rows w in
          (
            r.0,
            if r.1.1 && enforces p
                then replaced sql (reconstruct_multirow_insert sql r.1.0)
                else sql,
          )
      | none ↦
          let vals = extract_values sql in
          if nonempty table && has_items cols && has_items vals && length cols == length vals
          then (let r = autocorrect_row p spid sql table cols vals w in
              (
                r.0,
                if r.1.1 && enforces p
                    then replaced sql
                        (or_text (reconstruct_insert sql r.1.0) (reconstruct_update sql cols r.1.0))
                    else sql,
              ))
          else (w, sql)
    ]

-- `cnts.get("block", 0) + cnts.get("autocorrect", 0) + cnts.get("rpc_autocorrect_inplace", 0)`
unfoldable pub hits : Counters → ℕ
hits cnts =
    get_or 0 (Dict.get (codes "block") cnts)
    + get_or 0 (Dict.get (codes "autocorrect") cnts)
    + get_or 0 (Dict.get (codes "rpc_autocorrect_inplace") cnts)

-- Does the rule wait for more hits before it is enforced?
unfoldable pub below_threshold : Option Rule → Counters → Bool
unfolding hits
below_threshold none cnts = false
below_threshold (some r) cnts =
    let least = get_or 0 r.min_hits_to_enforce in ltb 0 least && ltb (hits cnts) least

abbrev pub rule_hits : PolicyDecision → World → Counters
rule_hits d w = get_rule_counters (or_empty d.rule_id) w.metrics

-- The world once the decision on the batch has been recorded.
unfoldable pub recorded : Settings → ℕ → PolicyDecision → Text → World → World
recorded p spid d sql w = count_rule d.rule_id d.action (note p (statement_note spid d sql) w)

-- The decision on a batch: the text to forward, `none` for a batch that is blocked.
unfoldable pub judge_batch : Settings → ℕ → Text → World → World × Option Text
judge_batch p spid sql w =
    let d = decide p.engine (statement_event sql) in
    let w1 = recorded p spid d sql w in
    if text_eq d.action (codes "block") && enforces p
    then (if below_threshold (get_rule p.engine d.rule_id) (rule_hits d w1)
        then (count (codes "gated_by_threshold") w1, some sql)
        else (count (codes "blocks") w1, none))
    else (let r = autocorrect p spid sql w1 in (r.0, some r.1))

-- The packet for the text to forward, if there is one.
unfoldable pub forward : ℕ → Option Text → Session → Step
unfolding packed
forward spid none s = went s
forward spid (some sql) s = elim (encode sql) [
  | none ↦ raised s
  | some payload ↦ went (record s { out = s.out ++ packed 1 spid payload })
]

-- The last packet of a batch has come.
unfoldable pub complete_batch : Settings → ℕ → List Bytes → Session → Step
unfolding forward
complete_batch p spid chunks s =
    let sql = or_empty (extract_sqlbatch_text chunks) in
    if nonempty sql
    then (let r = judge_batch p spid sql s.world in forward spid r.1 (record s { world = r.0 }))
    else went s

abbrev pub with_sql_chunks : List Bytes → Session → Session
with_sql_chunks chunks s = record s { conn = record s.conn { sql_chunks = chunks } }

unfoldable pub handle_batch : Settings → ℕ → ℕ → Bytes → Session → Step
unfolding complete_batch is_eom
handle_batch p spid status payload s =
    let chunks = s.conn.sql_chunks ++ payload ∷ [] in
    if is_eom status
    then complete_batch p spid chunks (with_sql_chunks [] s)
    else went (with_sql_chunks chunks s)
