-- ===== src/Proxy/Evolves.antt =====
-- How the proxy changes the files that its connections share: counters are raised, decisions are logged,
-- and nothing else happens to them.
pub mod Handled
pub mod Rounds
use sqlum_ai.Common.{
  ℕ, ◌+◌, ◌≤◌, ◌≡◌, refl, sym, ap, ◌∙◌, Bool, true, false, Option, none, some, List, [], ◌∷◌, ◌++◌,
  append_assoc, append-nil, arith, length, if◌then◌else◌, Bool-cases, inl, inr,
}
use sqlum_ai.Common.Text.{Text, text_eq, nonempty}
use sqlum_ai.Common.Dict
use sqlum_ai.Common.Table.{count_at}
use sqlum_ai.Metrics.Decisions.{Decision, lines, append}
use sqlum_ai.Metrics.Decisions.Tail.{stamped}
use sqlum_ai.Metrics.Store.{File, read, inc, inc_rule_action}
use sqlum_ai.Metrics.Store.Counters.{IsDict, get-inc, inc-IsDict}
use sqlum_ai.Proxy.State.{Settings, World, count, count_rule, note}

-- The world that comes of a world by calls of the metrics store and of the log.
pub data Evolves (p : Settings) : World → World → Type 0 where
  same : {w : World} → Evolves p w w
  counts : {w w' : World} (key : Text) → Evolves p w w' → Evolves p w (count key w')
  counts_rule :
      {w w' : World} (id : Option Text) (action : Text)
      → Evolves p w w'
      → Evolves p w (count_rule id action w')
  notes : {w w' : World} (d : Decision) → Evolves p w w' → Evolves p w (note p d w')

pub Evolves-trans : (p : Settings) {u v w : World} → Evolves p u v → Evolves p v w → Evolves p u w
Evolves-trans p a same = a
Evolves-trans p a (counts key b) = counts key (Evolves-trans p a b)
Evolves-trans p a (counts_rule id action b) = counts_rule id action (Evolves-trans p a b)
Evolves-trans p a (notes d b) = notes d (Evolves-trans p a b)

-- No counter is lower, the log has all that it had, in front, and no key of the metrics is there twice if
-- none was.
pub record Grown (w w' : World) : Type 0 where
  pub counters : (key : Text) → count_at key (read w.metrics) ≤ count_at key (read w'.metrics)
  pub logged : (more : List (Option Decision)) × (lines w'.log ≡ lines w.log ++ more)
  pub distinct : IsDict w.metrics → IsDict w'.metrics

inc-Grown :
    (w w' : World) (key : Text) (by : ℕ)
    → Grown w w'
    → Grown w (record w' { metrics = inc key by w'.metrics })
inc-Grown w w' key by g = record {
  counters = λ j. omega (arith, g.counters j, get-inc key j by w'.metrics);
  logged = g.logged;
  distinct = λ h. inc-IsDict key by w'.metrics (g.distinct h);
}

count_rule-Grown :
    (w w' : World) (id : Option Text) (action : Text)
    → Grown w w'
    → Grown w (count_rule id action w')
unfolding count_rule
count_rule-Grown w w' none action g = g
count_rule-Grown w w' (some id) action g = elim (Bool-cases (nonempty id)) [
  | inr empty ↦ rw (count_rule, empty) g
  | inl full ↦ rw (count_rule, full) (unfold inc_rule_action in inc-Grown w w' _ 1 g)
]

note-Grown : (p : Settings) (w w' : World) (d : Decision) → Grown w w' → Grown w (note p d w')
unfolding note append
note-Grown p w w' d g =
    let (more, e) = g.logged in
    let line : List (Option Decision) = some (stamped (p.clock (length (lines w'.log))) d) ∷ [] in
    record {
      counters = g.counters;
      logged = (more ++ line, ap (λ l. l ++ line) e ∙ append_assoc (lines w.log) more line);
      distinct = g.distinct;
    }

pub Evolves-Grown : (p : Settings) (w w' : World) → Evolves p w w' → Grown w w'
unfolding count
Evolves-Grown p w w' same = record {
  counters = λ key. omega arith;
  logged = ([], sym (append-nil (lines w.log)));
  distinct = λ h. h;
}
Evolves-Grown p w w' (counts key e) = inc-Grown w _ key 1 (Evolves-Grown p w _ e)
Evolves-Grown p w w' (counts_rule id action e) =
    count_rule-Grown w _ id action (Evolves-Grown p w _ e)
Evolves-Grown p w w' (notes d e) = note-Grown p w _ d (Evolves-Grown p w _ e)
