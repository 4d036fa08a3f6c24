-- ===== src/Common/Regex/Longest.antt =====
-- A greedy repeat with nothing behind it that can fail takes all that it can.
use sqlum_ai.Common.Tests.{◌==◌, if◌then◌else◌, <|>-eq-some, Bool-cases}
use sqlum_ai.Common.Lists.{length}
use sqlum_ai.Common.Text.{Text}
use sqlum_ai.Common.Regex.{Re, repeat_greedy, run, Match, found, search_from, search_re}
use sqlum_ai.Common.Regex.Complete.{greedy_none}
use Prim.Native.Nat.{ℕ, zero, suc, ◌-◌}
use mathlib.Core.Path.{◌≡◌, refl, ap}
use mathlib.Core.Logic.{◌⊎◌, inl, inr}
use mathlib.Core.Bool.{Bool, false}
use mathlib.Core.Option.{Option, none, some}
use mathlib.Core.List.{[], ◌∷◌, ◌++◌, append_assoc, append-nil}
use native.Mathlib.Omega.{arith}

-- No character follows that the repeat could take.
abbrev pub NoneFollows : (ℕ → Bool) → Text → Type 0
NoneFollows p [] = Unit {0}
NoneFollows p (c ∷ t) = p c ≡ false

module _ {R : Type 0} (p : ℕ → Bool) (k : Text → Text → Option R)
    (total : (u t : Text) → k u t ≡ none → ⊥) where
  -- a repeat that may take `max`, having taken `u`, has gone on with `v` more and ended there
  abbrev Longest : ℕ → Text → Text → R → Type 0
  Longest max u s x =
      (v : Text) × (t : Text) × (s ≡ v ++ t)
      × ((length v ≡ max) ⊎ NoneFollows p t)
      × (k (u ++ v) t ≡ some x)

  stopped :
      (min : ℕ) (u s : Text) (x : R)
      → (if min == 0 then k u s else none) ≡ some x
      → (min ≡ 0) × (k u s ≡ some x)
  stopped min u s x h = elim (Bool-cases (min == 0)) [
    | inl e ↦ (ground (arith, e), rw e at h)
    | inr e ↦ absurd (cc (rw e at h))
  ]

  pub greedy-Longest :
      (min max : ℕ) (u s : Text) (x : R)
      → repeat_greedy min (some max) p u s k ≡ some x
      → Longest max u s x
  unfolding repeat_greedy
  greedy-Longest min max u [] x h =
      let (low, e) = stopped min u [] x h in ([], [], refl, inr tt, rw append-nil e)
  greedy-Longest min zero u (c ∷ s) x h =
      let (low, e) = stopped min u (c ∷ s) x h in ([], c ∷ s, refl, inl refl, rw append-nil e)
  greedy-Longest min (suc max) u (c ∷ s) x h = elim (Bool-cases (p c)) [
    | inr e ↦
        let (low, q) = stopped min u (c ∷ s) x (rw e at h) in
        ([], c ∷ s, refl, inr e, rw append-nil q)
    | inl e ↦
        let less : suc max - 1 ≡ max = omega arith in
        elim (<|>-eq-some (repeat_greedy (min - 1) (some max) p (u ++ c ∷ []) s k)
          (if min == 0 then k u (c ∷ s) else none) (rw (e, less) at h)) [
            | inl more ↦
                let (v, t, split, full, q) = greedy-Longest (min - 1) max (u ++ c ∷ []) s x more in
                (c ∷ v, t, ap (λ z. c ∷ z) split, longer v t full, rw append_assoc at q)
            | inr (no_more, stop) ↦
                let (low, q) = stopped min u (c ∷ s) x stop in
                absurd (
                  total ((u ++ c ∷ []) ++ []) s (
                    greedy_none p k (min - 1) (some max) (u ++ c ∷ []) [] s no_more (omega arith)
                      (omega arith) tt))
          ]
  ]
    where
      longer :
          (v t : Text)
          → (length v ≡ max) ⊎ NoneFollows p t
          → (suc (length v) ≡ suc max) ⊎ NoneFollows p t
      longer v t (inl e) = inl (ap suc e)
      longer v t (inr e) = inr e

-- Where a search has found something, the pattern has run from a place in the text.
abbrev pub RunAt : Re → Text → Text → Match → Type 0
RunAt r b s m = (v : Text) × (t : Text) × (s ≡ v ++ t) × (run r t [] (found (b ++ v)) ≡ some m)

search_from-run : (r : Re) (b s : Text) (m : Match) → search_from r b s ≡ some m → RunAt r b s m
unfolding search_from
search_from-run r b [] m h = ([], [], refl, rw append-nil h)
search_from-run r b (c ∷ s) m h =
    elim (<|>-eq-some (run r (c ∷ s) [] (found b)) (search_from r (b ++ c ∷ []) s) h) [
      | inl here ↦ ([], c ∷ s, refl, rw append-nil here)
      | inr (_, later) ↦
          let (v, t, split, q) = search_from-run r (b ++ c ∷ []) s m later in
          (c ∷ v, t, ap (λ z. c ∷ z) split, rw append_assoc at q)
    ]

pub search_re-run : (r : Re) (s : Text) (m : Match) → search_re r s ≡ some m → RunAt r [] s m
unfolding search_re
search_re-run r s m h = search_from-run r [] s m h
