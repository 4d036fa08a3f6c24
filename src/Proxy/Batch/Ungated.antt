-- ===== src/Proxy/Batch/Ungated.antt =====
-- Thresholds, for an engine of the loaded rules.
use sqlum_ai.Common.{
  ◌≡◌, refl, sym, ap, ◌∙◌, false, Option, none, some, List, [], ◌∷◌, Bool-cases, Option-cases, inl,
  inr, All,
}
use sqlum_ai.Common.Text.{Text, text_eq, nonempty}
use sqlum_ai.Policy.Engine.{Rule, new_engine, get_rule}
use sqlum_ai.Policy.Engine.Index.{last_with, get_rule-new_engine}
use sqlum_ai.Policy.Loader.{Entry, load_entries}
use sqlum_ai.Policy.Loader.Sound.{Loads, done, keep, skip, load_entries-Loads}
use sqlum_ai.Metrics.Store.{Counters}
use sqlum_ai.Proxy.Batch.{below_threshold}

loaded_plain :
    {es : List Entry} {rs : List Rule} → Loads es rs → All (λ r. r.min_hits_to_enforce ≡ none) rs
loaded_plain done = tt
loaded_plain (keep l ls) = let (_, _, _, _, m) = l.rest in (m, loaded_plain ls)
loaded_plain (skip n ls) = loaded_plain ls

ungated :
    (r : Rule) (cnts : Counters)
    → r.min_hits_to_enforce ≡ none
    → below_threshold (some r) cnts ≡ false
unfolding below_threshold
ungated r cnts h = rw h refl

last_ungated :
    (id : Text) (rs : List Rule) (cnts : Counters)
    → All (λ r. r.min_hits_to_enforce ≡ none) rs
    → below_threshold (last_with id rs) cnts ≡ false
unfolding last_with
last_ungated id [] cnts h = unfold below_threshold in refl
last_ungated id (r ∷ rs) cnts (m, ms) = elim (Option-cases (last_with id rs)) [
  | inl (q, e) ↦
      rw (last_with, e) (ap (λ o. below_threshold o cnts) (sym e) ∙ last_ungated id rs cnts ms)
  | inr e ↦ elim (Bool-cases (text_eq r.id id)) [
    | inl hit ↦ rw (last_with, e, hit) (ungated r cnts m)
    | inr miss ↦ rw (last_with, e, miss) (unfold below_threshold in refl)
  ]
]

-- In an engine of the rules that the loader returns no threshold ever holds a block back, whatever
-- the rules file says and whatever has been counted.
pub below_threshold-loaded :
    (es : List Entry) (environment id : Option Text) (cnts : Counters)
    → below_threshold (get_rule (new_engine (load_entries es) environment) id) cnts ≡ false
below_threshold-loaded es environment none cnts =
    rw (get_rule-new_engine) (unfold below_threshold in refl)
below_threshold-loaded es environment (some i) cnts = elim (Bool-cases (nonempty i)) [
  | inl named ↦
      rw (get_rule-new_engine, named)
        (last_ungated i (load_entries es) cnts (loaded_plain (load_entries-Loads es)))
  | inr empty ↦ rw (get_rule-new_engine, empty) (unfold below_threshold in refl)
]
