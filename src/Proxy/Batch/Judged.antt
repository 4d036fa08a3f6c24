-- ===== src/Proxy/Batch/Judged.antt =====
-- What becomes of a batch: when it is blocked, and what is forwarded of it.
use sqlum_ai.Common.{
  ℕ, ◌≡◌, ◌≢◌, ◌⊎◌, inl, inr, refl, sym, Bool, true, false, ◌&&◌, none, some, some-injective, List,
  [], ◌∷◌, ◌++◌, arith, All, concat, if◌then◌else◌, Bool-cases, Option-cases,
}
use sqlum_ai.Common.Text.{Text, codes, text_eq, nonempty}
use sqlum_ai.Common.Text.Laws.{text_eq_iff, text_eq-false}
use sqlum_ai.Policy.Engine.{PolicyDecision, decide, get_rule, or_empty}
use sqlum_ai.Tds.Utf16.{Bytes, IsByte, decode}
use sqlum_ai.Tds.Utf16.RoundTrip.{encode-decode}
use sqlum_ai.Tds.Parser.{extract_sqlbatch_text}
use sqlum_ai.Tds.Sql.{extract_table_and_columns}
use sqlum_ai.Tds.Sql.Multirow.{extract_multirow_values}
use sqlum_ai.Proxy.State.{Settings, World, Session, went, enforces, count, packed, is_eom}
use sqlum_ai.Proxy.Batch.{
  statement_event, rows_fit, autocorrect, below_threshold, rule_hits, recorded, judge_batch,
  forward, complete_batch, handle_batch, with_sql_chunks,
}

abbrev pub decision_on : Settings → Text → PolicyDecision
decision_on p sql = decide p.engine (statement_event sql)

-- Does the threshold of the deciding rule hold the block back?
abbrev pub held_back : Settings → ℕ → Text → World → Bool
held_back p spid sql w =
    let d = decision_on p sql in
    below_threshold (get_rule p.engine d.rule_id) (rule_hits d (recorded p spid d sql w))

-- The three ways to judge a batch.
abbrev pub Judged : Settings → ℕ → Text → World → Type 0
Judged p spid sql w =
    let d = decision_on p sql in
    let w1 = recorded p spid d sql w in
    ((d.action ≡ codes "block")
      × (p.enforcement ≡ codes "enforce")
      × (held_back p spid sql w ≡ false)
      × (judge_batch p spid sql w ≡ (count (codes "blocks") w1, none)))
    ⊎ (((d.action ≡ codes "block")
          × (p.enforcement ≡ codes "enforce")
          × (held_back p spid sql w ≡ true)
          × (judge_batch p spid sql w ≡ (count (codes "gated_by_threshold") w1, some sql)))
        ⊎ (((d.action ≢ codes "block") ⊎ (p.enforcement ≢ codes "enforce"))
            × (judge_batch p spid sql w
                ≡ ((autocorrect p spid sql w1).0, some (autocorrect p spid sql w1).1))))

-- A batch is judged in one of three ways. Blocked: the decision is to block, blocks are enforced and
-- no threshold holds it back; nothing is to be forwarded and `blocks` counts one more. Held back: the
-- same but for a threshold; the statement goes on as it is and `gated_by_threshold` counts one more.
-- Any other: the statement goes on as the autocorrection leaves it.
pub judge_batch-cases : (p : Settings) (spid : ℕ) (sql : Text) (w : World) → Judged p spid sql w
unfolding judge_batch enforces
judge_batch-cases p spid sql w =
    elim (Bool-cases (text_eq (decision_on p sql).action (codes "block"))) [
      | inr other ↦ inr (inr (inl (text_eq-differ _ _ other), rw other))
      | inl block ↦ elim (Bool-cases (text_eq p.enforcement (codes "enforce"))) [
        | inr off ↦ inr (inr (inr (text_eq-differ _ _ off), rw (block, off)))
        | inl on ↦ elim (Bool-cases (held_back p spid sql w)) [
          | inr free ↦
              inl ((text_eq_iff _ _).0 block, (text_eq_iff _ _).0 on, free, rw (block, on, free))
          | inl held ↦
              inr (
                inl ((text_eq_iff _ _).0 block, (text_eq_iff _ _).0 on, held, rw (block, on, held)))
        ]
      ]
    ]
  where
    text_eq-differ : (s t : Text) → text_eq s t ≡ false → s ≢ t
    text_eq-differ s t h e = cc (h, (text_eq_iff s t).1 e)

pub not_enforced : (p : Settings) → p.enforcement ≢ codes "enforce" → enforces p ≡ false
unfolding enforces
not_enforced p h = text_eq-false _ _ h

autocorrect_log :
    (p : Settings) (spid : ℕ) (sql : Text) (w : World)
    → p.enforcement ≢ codes "enforce"
    → (autocorrect p spid sql w).1 ≡ sql
unfolding autocorrect
autocorrect_log p spid sql w log =
    let found = extract_table_and_columns sql in
    elim (Option-cases (rows_fit (extract_multirow_values sql) (or_empty found.0) found.1)) [
      | inl (rows, e) ↦ rw (autocorrect, e, not_enforced p log) (unchanged _ _ _)
      | inr e ↦ rw (autocorrect, e, not_enforced p log) (unchanged_if _ _ _ _ _ _)
    ]
  where
    unchanged : (b : Bool) (x y : Text) → (if b && false then x else y) ≡ y
    unchanged true x y = refl
    unchanged false x y = refl

    unchanged_if :
        (c b : Bool) (w0 w1 : World) (x y : Text)
        → let r : World × Text = if c then (w0, if b && false then x else y) else (w1, y) in r.1 ≡ y
    unchanged_if true b w0 w1 x y = unchanged b x y
    unchanged_if false b w0 w1 x y = refl

judge_log :
    (p : Settings) (spid : ℕ) (sql : Text) (w : World)
    → p.enforcement ≢ codes "enforce"
    → (judge_batch p spid sql w).1 ≡ some sql
unfolding judge_batch
judge_log p spid sql w log =
    rw (not_enforced p log)
      (ground (arith, autocorrect_log p spid sql (recorded p spid (decision_on p sql) sql w) log))

nonempty_of : (t : Text) → t ≢ [] → nonempty t ≡ true
nonempty_of [] h = absurd (h refl)
nonempty_of (c ∷ t) h = refl

nothing : (t : Text) → decode [] ≡ some t → t ≡ []
unfolding decode
nothing t h = sym (some-injective _ _ h)

text_of :
    (cs : List Bytes) (t : Text)
    → t ≢ []
    → decode (concat cs) ≡ some t
    → or_empty (extract_sqlbatch_text cs) ≡ t
unfolding extract_sqlbatch_text
text_of [] t ne h = absurd (ne (nothing t h))
text_of (c ∷ cs) t ne h = rw (extract_sqlbatch_text, h)

complete_log :
    (p : Settings) (spid : ℕ) (chunks : List Bytes) (sql : Text) (s : Session)
    → p.enforcement ≢ codes "enforce"
    → All IsByte (concat chunks)
    → sql ≢ []
    → decode (concat chunks) ≡ some sql
    → complete_batch p spid chunks s
      ≡ went (record s {
        world = (judge_batch p spid sql s.world).0;
        out = s.out ++ packed 1 spid (concat chunks);
      })
unfolding complete_batch forward
complete_log p spid chunks sql s log bytes some_text h = rw (
  text_of chunks sql some_text h,
  nonempty_of sql some_text,
  judge_log p spid sql s.world log,
  forward,
  encode-decode (concat chunks) sql bytes h,
)

-- Where blocks are not enforced, the last packet of a batch sends the whole batch on, in one packet
-- and byte for byte, whatever the rules decide; the batch is one whose bytes are the UTF-16LE of a
-- text that is not empty.
pub handle_batch_log :
    (p : Settings) (spid status : ℕ) (payload : Bytes) (sql : Text) (s : Session)
    → p.enforcement ≢ codes "enforce"
    → is_eom status ≡ true
    → All IsByte (concat (s.conn.sql_chunks ++ payload ∷ []))
    → sql ≢ []
    → decode (concat (s.conn.sql_chunks ++ payload ∷ [])) ≡ some sql
    → handle_batch p spid status payload s
      ≡ went (record (with_sql_chunks [] s) {
        world = (judge_batch p spid sql s.world).0;
        out = s.out ++ packed 1 spid (concat (s.conn.sql_chunks ++ payload ∷ []));
      })
unfolding handle_batch
handle_batch_log p spid status payload sql s log last bytes some_text h = rw last (
    complete_log p spid (s.conn.sql_chunks ++ payload ∷ []) sql (with_sql_chunks [] s) log bytes
      some_text h)

judge_block :
    (p : Settings) (spid : ℕ) (sql : Text) (w : World)
    → (decision_on p sql).action ≡ codes "block"
    → p.enforcement ≡ codes "enforce"
    → held_back p spid sql w ≡ false
    → judge_batch p spid sql w
      ≡ (count (codes "blocks") (recorded p spid (decision_on p sql) sql w), none)
unfolding judge_batch enforces
judge_block p spid sql w block on free =
    rw ((text_eq_iff _ _).1 block, (text_eq_iff _ _).1 on, free)

-- Where the decision on a batch is to block, blocks are enforced and no threshold holds it back, the
-- last packet of the batch sends nothing on and empties the chunks; the decision is recorded and
-- `blocks` counts one more. The batch is one that has a text, which is not empty.
pub handle_batch_blocked :
    (p : Settings) (spid status : ℕ) (payload : Bytes) (sql : Text) (s : Session)
    → is_eom status ≡ true
    → extract_sqlbatch_text (s.conn.sql_chunks ++ payload ∷ []) ≡ some sql
    → sql ≢ []
    → (decision_on p sql).action ≡ codes "block"
    → p.enforcement ≡ codes "enforce"
    → held_back p spid sql s.world ≡ false
    → handle_batch p spid status payload s
      ≡ went (record (with_sql_chunks [] s) {
        world = count (codes "blocks") (recorded p spid (decision_on p sql) sql s.world);
      })
unfolding handle_batch complete_batch forward
handle_batch_blocked p spid status payload sql s last text some_text block on free =
    rw (last, text, nonempty_of sql some_text, judge_block p spid sql s.world block on free)
