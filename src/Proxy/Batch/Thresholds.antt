-- ===== src/Proxy/Batch/Thresholds.antt =====
-- Which batches are dropped, told of the counters as they were before.
use sqlum_ai.Common.{
  ℕ, ◌+◌, ◌<◌, ◌≤◌, ◌≡◌, ◌↔◌, inl, inr, refl, ap, true, false, none, some, ◌++◌, arith, ltb,
  Bool-cases, Option-cases,
}
use sqlum_ai.Common.Text.{Text, codes, text_eq, nonempty}
use sqlum_ai.Common.Dict
use sqlum_ai.Common.Dict.{get_or}
use sqlum_ai.Common.Table.{count_at}
use sqlum_ai.Policy.Engine.{Rule, get_rule}
use sqlum_ai.Metrics.Store.{File, read, rule_prefix, inc_rule_action, get_rule_counters}
use sqlum_ai.Metrics.Store.Counters.{
  IsDict, get-get_rule_counters, get_rule_counters-inc_rule_action,
}
use sqlum_ai.Proxy.State.{Settings, World, count_rule, note}
use sqlum_ai.Proxy.Batch.{hits, below_threshold, rule_hits, recorded, judge_batch}
use sqlum_ai.Proxy.Batch.Judged.{decision_on, held_back, judge_batch-cases}

-- How often a rule has hit, by its three counters in the file.
abbrev pub past_hits : Text → World → ℕ
past_hits id w =
    count_at (rule_prefix id ++ codes "block") (read w.metrics)
    + count_at (rule_prefix id ++ codes "autocorrect") (read w.metrics)
    + count_at (rule_prefix id ++ codes "rpc_autocorrect_inplace") (read w.metrics)

-- The batch is to be blocked, and with this hit its rule has as many as it waits for, if it waits.
abbrev pub IsDropped : Settings → Text → Text → World → Type 0
IsDropped p id sql w =
    ((decision_on p sql).action ≡ codes "block")
    × (p.enforcement ≡ codes "enforce")
    × ((r : Rule)
        → get_rule p.engine (some id) ≡ some r
        → get_or 0 r.min_hits_to_enforce ≤ past_hits id w + 1)

rule_count :
    (id act : Text) (f : File)
    → IsDict f
    → get_or 0 (Dict.get act (get_rule_counters id f)) ≡ count_at (rule_prefix id ++ act) (read f)
rule_count id act f h = ap (get_or 0) (get-get_rule_counters id act f h)

hits-inc_rule_action :
    (id : Text) (w : World)
    → IsDict w.metrics
    → hits (get_rule_counters id (inc_rule_action id (codes "block") 1 w.metrics))
      ≡ past_hits id w + 1
unfolding hits text_eq
hits-inc_rule_action id w h = omega (
  arith,
  get_rule_counters-inc_rule_action id (codes "block") (codes "block") 1 w.metrics h,
  get_rule_counters-inc_rule_action id (codes "block") (codes "autocorrect") 1 w.metrics h,
  get_rule_counters-inc_rule_action id (codes "block") (codes "rpc_autocorrect_inplace") 1 w.metrics
      h,
  rule_count id (codes "block") w.metrics h,
  rule_count id (codes "autocorrect") w.metrics h,
  rule_count id (codes "rpc_autocorrect_inplace") w.metrics h,
)

module _ (p : Settings) (spid : ℕ) (id sql : Text) (w : World) (h : IsDict w.metrics)
    (by_rule : (decision_on p sql).rule_id ≡ some id) (named : nonempty id ≡ true) where
  hits-recorded :
      (decision_on p sql).action ≡ codes "block"
      → hits (rule_hits (decision_on p sql) (recorded p spid (decision_on p sql) sql w))
        ≡ past_hits id w + 1
  unfolding recorded count_rule note
  hits-recorded block = rw (by_rule, block, named) (hits-inc_rule_action id w h)

  held_back-hits :
      (decision_on p sql).action ≡ codes "block"
      → (r : Rule) → get_rule p.engine (some id) ≡ some r
      → (held_back p spid sql w ≡ true) ↔ (past_hits id w + 1 < get_or 0 r.min_hits_to_enforce)
  unfolding below_threshold
  held_back-hits block r e = ground (arith, by_rule, e, hits-recorded block)

  no_rule_free : get_rule p.engine (some id) ≡ none → held_back p spid sql w ≡ false
  unfolding below_threshold
  no_rule_free e = rw (by_rule, e) refl

  nothing_left-IsDropped : (judge_batch p spid sql w).1 ≡ none → IsDropped p id sql w
  nothing_left-IsDropped gone = elim (judge_batch-cases p spid sql w) [
    | inl (block, on, free, e) ↦ (
      block,
      on,
      λ r er. elim (Bool-cases (ltb (past_hits id w + 1) (get_or 0 r.min_hits_to_enforce))) [
        | inr enough ↦ ground (arith, enough)
        | inl few ↦ absurd (cc (free, (held_back-hits block r er).1 (ground (arith, few))))
      ],
    )
    | inr (inl (block, on, held, e)) ↦ absurd (cc (gone, ap (λ x. x.1) e))
    | inr (inr (other, e)) ↦ absurd (cc (gone, ap (λ x. x.1) e))
  ]

  IsDropped-nothing_left : IsDropped p id sql w → (judge_batch p spid sql w).1 ≡ none
  IsDropped-nothing_left (block, on, enough) = elim (judge_batch-cases p spid sql w) [
    | inl (block', on', free, e) ↦ ap (λ x. x.1) e
    | inr (inr (inl unlike, e)) ↦ absurd (unlike block)
    | inr (inr (inr off, e)) ↦ absurd (off on)
    | inr (inl (block', on', held, e)) ↦ elim (Option-cases (get_rule p.engine (some id))) [
      | inr no_rule ↦ absurd (cc (held, no_rule_free no_rule))
      | inl (r, er) ↦ absurd (omega (arith, enough r er, (held_back-hits block r er).0 held))
    ]
  ]

  -- Where a rule decides on a batch, and no key stands twice in the metrics, the batch is dropped exactly if
  -- the decision is to block, blocks are enforced and the rule's hits in the metrics as they were before, this
  -- one added, are at least the number that the rule waits for (0 where it names none).
  pub judge_batch-IsDropped : ((judge_batch p spid sql w).1 ≡ none) ↔ IsDropped p id sql w
  judge_batch-IsDropped = (nothing_left-IsDropped, IsDropped-nothing_left)
