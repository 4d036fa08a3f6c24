-- ===== src/Proxy/Evolves/Handled.antt =====
-- What the handlers of packets do to the shared files, and what they leave of the connection.
use sqlum_ai.Common.{
  ℕ, ◌==◌, ◌≡◌, refl, ◌∙◌, Bool, true, ◌&&◌, not, Option, none, some, List, [], ◌∷◌, ◌++◌, length,
  Bool-cases, Option-cases, inl, inr, subst,
}
use sqlum_ai.Common.Text.{Text, codes, text_eq, nonempty}
use sqlum_ai.Policy.Engine.{decide, get_rule, or_empty}
use sqlum_ai.Tds.Utf16.{Bytes, encode, encode_ignore}
use sqlum_ai.Tds.Parser.{extract_sqlbatch_text}
use sqlum_ai.Tds.Sql.{extract_table_and_columns, extract_values}
use sqlum_ai.Tds.Sql.Multirow.{extract_multirow_values}
use sqlum_ai.Proxy.State.{Settings, World, Session, Step, went, raised, enforces, is_eom}
use sqlum_ai.Proxy.Batch.{
  cell_event, statement_event, autocorrect_cell, autocorrect_row, autocorrect_rows, has_items,
  rows_fit, autocorrect, below_threshold, rule_hits, recorded, judge_batch, forward, complete_batch,
  handle_batch, with_sql_chunks,
}
use sqlum_ai.Proxy.Rpc.{
  param_event, judge_params, fitted, replace_once, rewrite_param, rewrite_params,
}
use sqlum_ai.Proxy.Evolves.{Evolves, same, counts, counts_rule, notes, Evolves-trans}

module _ (p : Settings) (spid : ℕ) where
  cell-Evolves :
      (sql table col v : Text) (w : World)
      → Evolves p w (autocorrect_cell p spid sql table col v w).0
  unfolding autocorrect_cell
  cell-Evolves sql table col v w =
      elim (Bool-cases
        (text_eq (decide p.engine (cell_event sql table col v)).action (codes "autocorrect"))) [
          | inr other ↦ rw (autocorrect_cell, other) same
          | inl auto ↦ elim (Option-cases (p.suggest_normalizations v)) [
            | inr e ↦ rw (autocorrect_cell, auto, e) same
            | inl (sug, e) ↦
                elim (Bool-cases (nonempty sug.normalized && not (text_eq sug.normalized v))) [
                  | inr kept ↦ rw (autocorrect_cell, auto, e, kept) same
                  | inl new ↦
                      rw (autocorrect_cell, auto, e, new)
                        (counts_rule _ (codes "autocorrect")
                          (notes _ (counts (codes "autocorrect_suggested") same)))
                ]
          ]
        ]

  row-Evolves :
      (sql table : Text) (cols vs : List Text) (w : World)
      → Evolves p w (autocorrect_row p spid sql table cols vs w).0
  unfolding autocorrect_row
  row-Evolves sql table [] vs w = same
  row-Evolves sql table (c ∷ cols) [] w = same
  row-Evolves sql table (c ∷ cols) (v ∷ vs) w =
      Evolves-trans p (cell-Evolves sql table c v w)
        (row-Evolves sql table cols vs (autocorrect_cell p spid sql table c v w).0)

  rows-Evolves :
      (sql table : Text) (cols : List Text) (rs : List (List Text)) (w : World)
      → Evolves p w (autocorrect_rows p spid sql table cols rs w).0
  unfolding autocorrect_rows
  rows-Evolves sql table cols [] w = same
  rows-Evolves sql table cols (r ∷ rs) w =
      Evolves-trans p (row-Evolves sql table cols r w)
        (rows-Evolves sql table cols rs (autocorrect_row p spid sql table cols r w).0)

  autocorrect-Evolves : (sql : Text) (w : World) → Evolves p w (autocorrect p spid sql w).0
  unfolding autocorrect
  autocorrect-Evolves sql w =
      let found = extract_table_and_columns sql in
      let table = or_empty found.0 in
      let cols = found.1 in
      let vals = extract_values sql in
      elim (Option-cases (rows_fit (extract_multirow_values sql) table cols)) [
        | inl (rows, e) ↦ rw (autocorrect, e) (rows-Evolves sql table cols rows w)
        | inr e ↦
            elim (Bool-cases
              (nonempty table && has_items cols && has_items vals && length cols == length vals)) [
                | inl fit ↦ rw (autocorrect, e, fit) (row-Evolves sql table cols vals w)
                | inr other ↦ rw (autocorrect, e, other) same
              ]
      ]

  judge_batch-Evolves : (sql : Text) (w : World) → Evolves p w (judge_batch p spid sql w).0
  unfolding judge_batch recorded
  judge_batch-Evolves sql w =
      let d = decide p.engine (statement_event sql) in
      let w1 = recorded p spid d sql w in
      let start : Evolves p w w1 = counts_rule d.rule_id d.action (notes _ same) in
      elim (Bool-cases (text_eq d.action (codes "block") && enforces p)) [
        | inr other ↦ rw (judge_batch, other) (Evolves-trans p start (autocorrect-Evolves sql w1))
        | inl block ↦
            elim (Bool-cases (below_threshold (get_rule p.engine d.rule_id) (rule_hits d w1))) [
              | inl held ↦ rw (judge_batch, block, held) (counts (codes "gated_by_threshold") start)
              | inr free ↦ rw (judge_batch, block, free) (counts (codes "blocks") start)
            ]
      ]

  pub judge_params-Evolves :
      (params : List (Text × Text)) (w : World) → Evolves p w (judge_params p spid params w).0
  unfolding judge_params
  judge_params-Evolves [] w = same
  judge_params-Evolves ((name, val) ∷ params) w =
      Evolves-trans p (notes _ same) (judge_params-Evolves params _)

-- `none` leaves the world as it is
abbrev outcome : World → Option (World × Bytes) → World
outcome w none = w
outcome w (some r) = r.0

module _ (p : Settings) (spid : ℕ) where
  rewrite_param-Evolves :
      (name val : Text) (w : World) (payload : Bytes)
      → Evolves p w (outcome w (rewrite_param p spid name val w payload))
  unfolding rewrite_param
  rewrite_param-Evolves name val w payload =
      elim (Bool-cases
        (text_eq (decide p.engine (param_event name val)).action (codes "autocorrect"))) [
          | inr other ↦ rw (rewrite_param, other) same
          | inl auto ↦ elim (Option-cases (p.suggest_normalizations val)) [
            | inr e ↦ rw (rewrite_param, auto, e) same
            | inl (sug, e) ↦ elim (Bool-cases (nonempty sug.normalized)) [
              | inr empty ↦ rw (rewrite_param, auto, e, empty) same
              | inl full ↦
                  elim (Option-cases
                    (fitted p (encode_ignore val) (encode_ignore sug.normalized))) [
                      | inr no_fit ↦ rw (rewrite_param, auto, e, full, no_fit) same
                      | inl (new, fit) ↦
                          elim (Option-cases (replace_once (encode_ignore val) new payload)) [
                            | inr absent ↦ rw (rewrite_param, auto, e, full, fit, absent) same
                            | inl (done, there) ↦
                                rw (rewrite_param, auto, e, full, fit, there)
                                  (counts_rule _ (codes "rpc_autocorrect_inplace")
                                    (counts (codes "rpc_autocorrect_inplace") (notes _ same)))
                          ]
                    ]
            ]
          ]
        ]

  pub rewrite_params-Evolves :
      (params : List (Text × Text)) (w : World) (payload : Bytes) (changed : Bool)
      → Evolves p w (rewrite_params p spid params w payload changed).0
  unfolding rewrite_params
  rewrite_params-Evolves [] w payload changed = same
  rewrite_params-Evolves ((name, val) ∷ params) w payload changed =
      let here = rewrite_param-Evolves name val w payload in
      elim (Option-cases (rewrite_param p spid name val w payload)) [
        | inr e ↦ rw (rewrite_params, e) (rewrite_params-Evolves params w payload changed)
        | inl (r, e) ↦
            rw (rewrite_params, e)
              (Evolves-trans p (subst (λ o. Evolves p w (outcome w o)) e here)
                (rewrite_params-Evolves params r.0 r.1 true))
      ]

-- The world evolves, and the connection keeps its buffer and its count of bytes.
pub record Kept (p : Settings) (s s' : Session) : Type 0 where
  pub world : Evolves p s.world s'.world
  pub buffer : s'.conn.c2s_buf ≡ s.conn.c2s_buf
  pub sent : s'.conn.sent ≡ s.conn.sent

pub Kept-trans : (p : Settings) (s t u : Session) → Kept p s t → Kept p t u → Kept p s u
Kept-trans p s t u a b = record {
  world = Evolves-trans p a.world b.world;
  buffer = b.buffer ∙ a.buffer;
  sent = b.sent ∙ a.sent;
}

abbrev pub session_of : Step → Session
session_of (went s) = s
session_of (raised s) = s

pub Kept-world :
    (p : Settings) (s : Session) (w : World) (bytes : Bytes)
    → Evolves p s.world w
    → Kept p s (record s { world = w; out = s.out ++ bytes })
Kept-world p s w bytes e = record { world = e; buffer = refl; sent = refl }

forward-Kept :
    (p : Settings) (spid : ℕ) (sql : Option Text) (s : Session)
    → Kept p s (session_of (forward spid sql s))
unfolding forward
forward-Kept p spid none s = record { world = same; buffer = refl; sent = refl }
forward-Kept p spid (some sql) s = elim (Option-cases (encode sql)) [
  | inr e ↦ rw (forward, e) (record { world = same; buffer = refl; sent = refl })
  | inl (payload, e) ↦ rw (forward, e) (record { world = same; buffer = refl; sent = refl })
]

complete_batch-Kept :
    (p : Settings) (spid : ℕ) (chunks : List Bytes) (s : Session)
    → Kept p s (session_of (complete_batch p spid chunks s))
unfolding complete_batch
complete_batch-Kept p spid chunks s =
    let sql = or_empty (extract_sqlbatch_text chunks) in
    let r = judge_batch p spid sql s.world in
    let judged : Session = record s { world = r.0 } in
    elim (Bool-cases (nonempty sql)) [
      | inr e ↦ rw (complete_batch, e) (record { world = same; buffer = refl; sent = refl })
      | inl e ↦
          rw (complete_batch, e)
            (Kept-trans p s judged _
              (record {
                world = judge_batch-Evolves p spid sql s.world;
                buffer = refl;
                sent = refl;
              })
              (forward-Kept p spid r.1 judged))
    ]

pub handle_batch-Kept :
    (p : Settings) (spid status : ℕ) (payload : Bytes) (s : Session)
    → Kept p s (session_of (handle_batch p spid status payload s))
unfolding handle_batch
handle_batch-Kept p spid status payload s = elim (Bool-cases (is_eom status)) [
  | inr e ↦ rw (handle_batch, e) (record { world = same; buffer = refl; sent = refl })
  | inl e ↦
      rw (handle_batch, e)
        (Kept-trans p s (with_sql_chunks [] s) _
          (record { world = same; buffer = refl; sent = refl })
          (complete_batch-Kept p spid (s.conn.sql_chunks ++ payload ∷ []) (with_sql_chunks [] s)))
]
