-- ===== src/Api/Dryrun/Answered.antt =====
-- What `dryrun_json` answers.
use sqlum_ai.Common.{
  ℕ, ◌+◌, ◌≡◌, refl, ap, inl, inr, ◌∙◌, Bool, true, false, ◌&&◌, Option, none, some, List, [], ◌∷◌,
  ◌++◌, arith, All, if◌then◌else◌, Option-cases, subst,
}
use sqlum_ai.Common.Text.{Text, text_eq}
use sqlum_ai.Common.Dict
use sqlum_ai.Common.Table.{Table, cell_at, bump, cell_at-bump}
use sqlum_ai.Metrics.Decisions.{Decision, Log, natural, tail}
use sqlum_ai.Api.Dryrun.{ts_of, rule_of, action_of, is_counted, tally, dryrun_json}
use sqlum_ai.Api.Dryrun.Asked.{
  HasTexts, HasTime, HasTime-ts_of, ts_of-HasTime, Counts, ends, tests, Counts-cons,
}

-- The table has, under each rule and action, the number of the decisions that are asked for.
abbrev pub CountsAll : Option Text → Option Text → Text → List Decision → Table → Type 0
CountsAll rule action day ds agg =
    (rid act : Text) → Counts rule action day rid act ds (cell_at rid act agg)

-- Some decision has something under `ts` that is no text.
abbrev pub HasUntimed : List Decision → Type 0
HasUntimed ds =
    (before : List Decision) × (d : Decision) × (after : List Decision) × (ds ≡ before ++ d ∷ after)
    × ((s : Text) → HasTime d s → ⊥)

abbrev Timed : Decision → Type 0
Timed d = (s : Text) × HasTime d s

module _ (rule action : Option Text) (day : Text) where
  abbrev passes : Text → Decision → Bool
  passes ts d = tests rule action day [] [] ts d

  -- what a table comes to have
  abbrev Adds : List Decision → Table → Table → Type 0
  Adds ds agg agg' =
      (rid act : Text)
      → (n : ℕ) × Counts rule action day rid act ds n
        × (cell_at rid act agg' ≡ cell_at rid act agg + n)

  cell_at-counted :
      (rid act : Text) (b : Bool) (d : Decision) (agg : Table)
      → cell_at rid act (if b then bump (rule_of d) (action_of d) agg else agg)
        ≡ cell_at rid act agg
          + (if b && (text_eq (rule_of d) rid && text_eq (action_of d) act) then 1 else 0)
  cell_at-counted rid act true d agg = cell_at-bump rid act (rule_of d) (action_of d) agg
  cell_at-counted rid act false d agg = omega arith

  Adds-cons :
      (ts : Text) (d : Decision) (ds : List Decision) (agg agg' : Table)
      → ts_of d ≡ some ts
      → Adds ds (if passes ts d then bump (rule_of d) (action_of d) agg else agg) agg'
      → Adds (d ∷ ds) agg agg'
  Adds-cons ts d ds agg agg' e h rid act =
      let (n, c, q) = h rid act in
      (
        _,
        Counts-cons rule action day rid act ts d ds n e c,
        q ∙ (ap (λ m. m + n) (cell_at-counted rid act (passes ts d) d agg) ∙ omega arith),
      )

  -- how the loop ends
  abbrev Ends : List Decision → Table → Option Table → Type 0
  Ends ds agg none = HasUntimed ds
  Ends ds agg (some agg') = All Timed ds × Adds ds agg agg'

  untimed : (d : Decision) (ds : List Decision) → ts_of d ≡ none → HasUntimed (d ∷ ds)
  untimed d ds e = ([], d, ds, refl, λ s h. cc (e, HasTime-ts_of d s h))

  Ends-cons :
      (ts : Text) (d : Decision) (ds : List Decision) (agg : Table) (o : Option Table)
      → ts_of d ≡ some ts
      → Ends ds (if passes ts d then bump (rule_of d) (action_of d) agg else agg) o
      → Ends (d ∷ ds) agg o
  Ends-cons ts d ds agg none e (before, x, after, q, no_time) =
      (d ∷ before, x, after, ap (λ l. d ∷ l) q, no_time)
  Ends-cons ts d ds agg (some agg') e (timed, adds) =
      (((ts, ts_of-HasTime d ts e), timed), Adds-cons ts d ds agg agg' e adds)

  tally-Ends : (ds : List Decision) (agg : Table) → Ends ds agg (tally rule action day ds agg)
  unfolding tally is_counted
  tally-Ends [] agg = (tt, λ rid act. (0, ends, omega arith))
  tally-Ends (d ∷ ds) agg = elim (Option-cases (ts_of d)) [
    | inr e ↦ rw (tally, is_counted, e) (untimed d ds e)
    | inl (ts, e) ↦ rw (tally, is_counted, e) (Ends-cons ts d ds agg _ e (tally-Ends ds _))
  ]

-- A table that counts, or the exception.
abbrev pub Answers : Option Text → Option Text → Text → List Decision → Option Table → Type 0
Answers rule action day ds none = HasUntimed ds
Answers rule action day ds (some agg) = All Timed ds × CountsAll rule action day ds agg

-- Where the decisions in the last 10000 lines of the log have texts or null under `rule_id` and
-- `action`, and each has a text under `ts` or nothing: the answer gives for each rule and action the
-- number of those whose time starts with the day and that the filters let through. Where one has
-- anything else under `ts`, the handler raises and answers nothing.
pub dryrun_json-Answers :
    (rule action : Option Text) (day : Text) (log : Log)
    → All HasTexts (tail (natural 10000) log)
    → Answers rule action day (tail (natural 10000) log) (dryrun_json rule action day log)
unfolding dryrun_json
dryrun_json-Answers rule action day log texts =
    answers (tally rule action day (tail (natural 10000) log) [])
      (tally-Ends rule action day (tail (natural 10000) log) [])
  where
    nothing_yet : (rid act : Text) → cell_at rid act [] ≡ 0
    nothing_yet rid act = unfold Dict.get in refl

    answers :
        (o : Option Table)
        → Ends rule action day (tail (natural 10000) log) [] o
        → Answers rule action day (tail (natural 10000) log) o
    answers none h = h
    answers (some agg) (timed, adds) = (
      timed,
      λ rid act.
          let (n, c, q) = adds rid act in
          rw (q ∙ ap (λ m. m + n) (nothing_yet rid act)) (
            subst (λ m. Counts rule action day rid act (tail (natural 10000) log) m) (zero_more n)
              c),
    )
      where
        zero_more : (n : ℕ) → n ≡ 0 + n
        zero_more n = omega arith
