-- ===== src/Scripts/Insights/Counted.antt =====
-- What the counts of the prompt are.
use sqlum_ai.Common.{
  ℕ, ◌+◌, ◌≡◌, refl, ap, ◌∙◌, sym, true, ◌&&◌, List, [], ◌∷◌, arith, is_some, if◌then◌else◌,
  Bool-cases, Option-cases, inl, inr, none, subst, All,
}
use sqlum_ai.Common.Text.{Text, text_eq, starts_with}
use sqlum_ai.Common.Text.Laws.{text_eq_iff}
use sqlum_ai.Common.Dict
use sqlum_ai.Common.Dict.{Dict, get_or, get-put, get-empty}
use sqlum_ai.Common.Table.{Table, add_one, count_at, count_at-add_one, cell_at}
use sqlum_ai.Metrics.Decisions.{Decision, Log, lines, parsed}
use sqlum_ai.Api.Dryrun.{ts_of, rule_of, action_of}
use sqlum_ai.Api.Dryrun.Asked.{HasTexts, Counts, ends, Counts-cons, Counts-untimed}
use sqlum_ai.Scripts.Insights.{
  decisions_for, load_decisions_for_date, no_counts, count_action, count_actions,
}

-- An action that the counts start with.
abbrev pub IsListed : Text → Type 0
IsListed act = is_some (Dict.get act no_counts) ≡ true

-- the counts of a rule, those it would start with where it has none
abbrev entry : Text → Table → Dict ℕ
entry rid by_rule = get_or no_counts (Dict.get rid by_rule)

-- the counts have the keys that they start with
abbrev HasKeys : Dict ℕ → Type 0
HasKeys c = (act : Text) → is_some (Dict.get act c) ≡ is_some (Dict.get act no_counts)

no_counts-zero : (act : Text) → count_at act no_counts ≡ 0
unfolding Dict.get
no_counts-zero act = ground arith

cell_at-entry : (rid act : Text) (t : Table) → cell_at rid act t ≡ count_at act (entry rid t)
cell_at-entry rid act t = elim (Option-cases (Dict.get rid t)) [
  | inl (c, e) ↦ rw e refl
  | inr e ↦ rw e (ap (get_or 0) (get-empty act) ∙ sym (no_counts-zero act))
]

-- one more, where the key is there
abbrev counted : Text → Dict ℕ → Dict ℕ
counted act c = if is_some (Dict.get act c) then add_one act c else c

entry-count_action :
    (rid r a : Text) (t : Table)
    → entry rid (count_action r a t)
      ≡ (if text_eq r rid then counted a (entry r t) else entry rid t)
unfolding count_action
entry-count_action rid r a t = elim (Bool-cases (text_eq r rid)) [
  | inl same ↦ rw (get-put, same) refl
  | inr other ↦ rw (get-put, other) refl
]

counted-HasKeys : (a : Text) (c : Dict ℕ) → HasKeys c → HasKeys (counted a c)
unfolding add_one
counted-HasKeys a c h act = elim (Bool-cases (is_some (Dict.get a c))) [
  | inr lacks ↦ rw lacks (h act)
  | inl there ↦
      rw (there, get-put)
        (elim (Bool-cases (text_eq a act)) [
          | inr other ↦ rw other (h act)
          | inl same ↦ rw same (
              sym (
                ap (λ z. is_some (Dict.get z no_counts)) (sym ((text_eq_iff a act).0 same))
                ∙ (sym (h a) ∙ there)))
        ])
]

entry-HasKeys :
    (rid r a : Text) (t : Table)
    → HasKeys (entry r t)
    → HasKeys (entry rid t)
    → HasKeys (entry rid (count_action r a t))
entry-HasKeys rid r a t hr h = elim (Bool-cases (text_eq r rid)) [
  | inl same ↦ rw (entry-count_action rid r a t, same) (counted-HasKeys a (entry r t) hr)
  | inr other ↦ rw (entry-count_action rid r a t, other) h
]

-- How many of the decisions have this rule and this action.
unfoldable pub judged : Text → Text → List Decision → ℕ
judged rid act [] = 0
judged rid act (d ∷ ds) =
    (if text_eq (rule_of d) rid && text_eq (action_of d) act then 1 else 0) + judged rid act ds

count_at-counted :
    (a act : Text) (c : Dict ℕ)
    → HasKeys c
    → IsListed act
    → count_at act (counted a c) ≡ count_at act c + (if text_eq a act then 1 else 0)
count_at-counted a act c h listed = elim (Bool-cases (is_some (Dict.get a c))) [
  | inl there ↦ rw there (count_at-add_one a act c)
  | inr missing ↦ elim (Bool-cases (text_eq a act)) [
    | inr other ↦ rw (missing, other) (omega arith)
    | inl same ↦
        absurd (
          cc
            (missing, listed, h act, ap (λ z. is_some (Dict.get z c)) ((text_eq_iff a act).0 same)))
  ]
]

cell_at-count_action :
    (rid act r a : Text) (t : Table)
    → HasKeys (entry rid t)
    → IsListed act
    → cell_at rid act (count_action r a t)
      ≡ cell_at rid act t + (if text_eq r rid && text_eq a act then 1 else 0)
cell_at-count_action rid act r a t h listed =
    cell_at-entry rid act (count_action r a t)
    ∙ (ap (count_at act) (entry-count_action rid r a t) ∙ elim (Bool-cases (text_eq r rid)) [
      | inr other ↦ rw (other, cell_at-entry rid act t) (omega arith)
      | inl same ↦
          let e = (text_eq_iff r rid).0 same in
          rw (same, e, cell_at-entry rid act t) (count_at-counted a act (entry rid t) h listed)
    ])

cell_at-count_actions :
    (rid act : Text) (ds : List Decision) (t : Table)
    → ((r : Text) → HasKeys (entry r t))
    → IsListed act
    → cell_at rid act (count_actions ds t) ≡ cell_at rid act t + judged rid act ds
unfolding count_actions judged
cell_at-count_actions rid act [] t h listed = omega arith
cell_at-count_actions rid act (d ∷ ds) t h listed =
    cell_at-count_actions rid act ds (count_action (rule_of d) (action_of d) t)
      (λ r. entry-HasKeys r (rule_of d) (action_of d) t (h (rule_of d)) (h r)) listed
    ∙ rw (cell_at-count_action rid act (rule_of d) (action_of d) t (h rid) listed) (omega arith)

judged-Counts :
    (date rid act : Text) (ds : List Decision)
    → Counts none none date rid act ds (judged rid act (decisions_for date ds))
unfolding decisions_for judged
judged-Counts date rid act [] = ends
judged-Counts date rid act (d ∷ ds) =
    let later = judged-Counts date rid act ds in
    elim (Option-cases (ts_of d)) [
      | inr e ↦ rw (decisions_for, e) (Counts-untimed none none date rid act d ds _ e later)
      | inl (ts, e) ↦
          let here = Counts-cons none none date rid act ts d ds _ e later in
          elim (Bool-cases (starts_with ts date)) [
            | inl today ↦ rw (decisions_for, e, today) (rw today at here)
            | inr other ↦
                rw (decisions_for, e, other)
                  (subst (λ n. Counts none none date rid act (d ∷ ds) n) (no_more _)
                    (rw other at here))
          ]
    ]
  where
    no_more : (n : ℕ) → 0 + n ≡ n
    no_more n = omega arith

-- Where the decisions of the log have texts or null under `rule_id` and `action`: for `block`,
-- `autocorrect` and `rpc_autocorrect_inplace`, the number that the prompt gives under a rule is the
-- number of the log's decisions with a time that starts with the date, that rule and that action.
pub count_actions-judged :
    (date rid act : Text) (log : Log)
    → All HasTexts (parsed (lines log))
    → IsListed act
    → Counts none none date rid act
        (parsed (lines log))
        (cell_at rid act (count_actions (load_decisions_for_date date log) []))
unfolding load_decisions_for_date
count_actions-judged date rid act log texts listed =
    subst (λ n. Counts none none date rid act (parsed (lines log)) n)
      (sym (
        cell_at-count_actions rid act (load_decisions_for_date date log) [] start listed
        ∙ rw nothing_yet (omega arith)))
      (judged-Counts date rid act (parsed (lines log)))
  where
    start : (r : Text) → HasKeys (entry r [])
    start r = unfold Dict.get in (λ a. refl)

    nothing_yet : cell_at rid act [] ≡ 0
    nothing_yet = unfold Dict.get in refl
