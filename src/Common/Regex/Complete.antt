-- ===== src/Common/Regex/Complete.antt =====
-- What the lack of a match says: no piece of the text is a match; and that a search finds the first one.
use sqlum_ai.Common.Tests.{◌==◌, if◌then◌else◌, <|>-eq-none, <|>-eq-some, Bool-cases, Option-cases}
use sqlum_ai.Common.Lists.{length, length-append, All}
use sqlum_ai.Common.Text.{Text}
use sqlum_ai.Common.Regex.{
  Captures, Re, eps, chr, seq, alt, rep, cap, end_of_text, room, one_less, Cont, repeat_greedy,
  repeat_lazy, run, Match, found, search_from, search_re,
}
use sqlum_ai.Common.Regex.Sound.{AtMost, Matches, run_sound}
use Prim.Native.Nat.{ℕ, zero, suc, ◌+◌, ◌-◌, ◌≤◌}
use mathlib.Core.Path.{◌≡◌, refl, ap, sym, ◌∙◌}
use mathlib.Core.Logic.{inl, inr}
use mathlib.Core.Bool.{Bool, true, false, ◌&&◌}
use mathlib.Core.Option.{Option, none, some, some-injective}
use mathlib.Core.List.{[], ◌∷◌, ◌++◌, append_assoc, append-nil}
use native.Mathlib.Omega.{arith}

AtMost-suc :
    (n : ℕ) (max : Option ℕ) → AtMost (suc n) max → (room max ≡ true) × AtMost n (one_less max)
AtMost-suc n none h = (refl, tt)
AtMost-suc n (some zero) h = absurd (omega arith)
AtMost-suc n (some (suc m)) h = (refl, omega arith)

module _ {R : Type 0} (p : ℕ → Bool) (k : Text → Text → Option R) where
  -- The repeat answers nothing, so nothing comes of a number of repeats within the bounds.
  abbrev Refused : ℕ → Option ℕ → Text → Text → Text → Type 0
  Refused min max u v t =
      min ≤ length v → AtMost (length v) max → All (λ x. p x ≡ true) v → k (u ++ v) t ≡ none

  abbrev stop : ℕ → Text → Text → Option R
  stop min u s = if min == 0 then k u s else none

  abbrev greedy_next : ℕ → Option ℕ → Text → ℕ → Text → Option R
  greedy_next min max u c s = repeat_greedy (min - 1) (one_less max) p (u ++ c ∷ []) s k

  abbrev lazy_next : ℕ → Option ℕ → Text → ℕ → Text → Option R
  lazy_next min max u c s = repeat_lazy (min - 1) (one_less max) p (u ++ c ∷ []) s k

  pub greedy_none :
      (min : ℕ) (max : Option ℕ) (u v t : Text)
      → repeat_greedy min max p u (v ++ t) k ≡ none
      → Refused min max u v t
  unfolding repeat_greedy
  greedy_none min max u [] [] h lo hi a = rw append-nil (ground arith)
  greedy_none min max u [] (c ∷ t) h lo hi a = elim (Bool-cases (room max && p c)) [
    | inl go ↦ rw append-nil (
        ground
          (arith, (<|>-eq-none (greedy_next min max u c t) (stop min u (c ∷ t)) (rw go at h)).1))
    | inr halt ↦ rw append-nil (ground (arith, rw halt at h))
  ]
  greedy_none min max u (c ∷ v) t h lo hi (pc, a) =
      let (r, hi') = AtMost-suc (length v) max hi in
      let go : (room max && p c) ≡ true = ground (arith, r, pc) in
      rw (← append_assoc u (c ∷ []) v) (
        greedy_none (min - 1) (one_less max) (u ++ c ∷ []) v t
          (<|>-eq-none (greedy_next min max u c (v ++ t)) (stop min u (c ∷ (v ++ t)))
            (rw go at h)).0
          (omega arith) hi' a)

  lazy_none :
      (min : ℕ) (max : Option ℕ) (u v t : Text)
      → repeat_lazy min max p u (v ++ t) k ≡ none
      → Refused min max u v t
  unfolding repeat_lazy
  lazy_none min max u [] [] h lo hi a = rw append-nil (ground arith)
  lazy_none min max u [] (c ∷ t) h lo hi a = elim (Bool-cases (room max && p c)) [
    | inl go ↦ rw append-nil (
        ground (arith, (<|>-eq-none (stop min u (c ∷ t)) (lazy_next min max u c t) (rw go at h)).0))
    | inr halt ↦ rw append-nil (ground (arith, rw halt at h))
  ]
  lazy_none min max u (c ∷ v) t h lo hi (pc, a) =
      let (r, hi') = AtMost-suc (length v) max hi in
      let go : (room max && p c) ≡ true = ground (arith, r, pc) in
      rw (← append_assoc u (c ∷ []) v) (
        lazy_none (min - 1) (one_less max) (u ++ c ∷ []) v t
          (<|>-eq-none (stop min u (c ∷ (v ++ t))) (lazy_next min max u c (v ++ t)) (rw go at h)).1
          (omega arith) hi' a)

-- A run that answers nothing goes on from no match.
pub run-none :
    {R : Type 0} (r : Re) (u t : Text) (c d : Captures) (k : Cont R)
    → run r (u ++ t) c k ≡ none
    → Matches r u t c d
    → k u t d ≡ none
unfolding run
run-none eps u t c d k h (eu, ed) = rw (eu, ed) (rw eu at h)
run-none (chr p) u t c d k h (x, eu, px, ed) =
    let h' : run (chr p) (x ∷ t) c k ≡ none = rw eu at h in rw (eu, ed) (rw px at h')
run-none (seq a b) u t c d k h (v, w, e, eu, ma, mb) =
    let h' : run (seq a b) (v ++ (w ++ t)) c k ≡ none = rw (eu, append_assoc v w t) at h in
    rw eu (run-none b w t e d _ (run-none a v (w ++ t) c e _ h' ma) mb)
run-none (alt a b) u t c d k h (inl m) = run-none a u t c d k (<|>-eq-none _ _ h).0 m
run-none (alt a b) u t c d k h (inr m) = run-none b u t c d k (<|>-eq-none _ _ h).1 m
run-none (rep true min max p) u t c d k h (lo, hi, a, ed) =
    rw ed (greedy_none p (λ v s. k v s c) min max [] u t h lo hi a)
run-none (rep false min max p) u t c d k h (lo, hi, a, ed) =
    rw ed (lazy_none p (λ v s. k v s c) min max [] u t h lo hi a)
run-none (cap n r) u t c d k h (e, m, ed) =
    rw ed (run-none r u t c e (λ v s x. k v s ((n, v) ∷ x)) h m)
run-none end_of_text u t c d k h (eu, end, ed) =
    let h' : run end_of_text t c k ≡ none = rw eu at h in rw (eu, ed) (rw end at h')

search_from_here : (r : Re) (b s : Text) → search_from r b s ≡ none → run r s [] (found b) ≡ none
unfolding search_from
search_from_here r b [] h = h
search_from_here r b (c ∷ s) h = (<|>-eq-none _ _ h).0

search_from-found :
    (r : Re) (b s : Text) (m : Match) → run r s [] (found b) ≡ some m → search_from r b s ≡ some m
unfolding search_from
search_from-found r b [] m h = h
search_from-found r b (c ∷ s) m h = rw h refl

search_from-none :
    (r : Re) (b v u t : Text) (d : Captures)
    → search_from r b (v ++ (u ++ t)) ≡ none
    → Matches r u t [] d
    → ⊥
unfolding search_from
search_from-none r b [] u t d h m =
    let stuck : found b u t d ≡ none =
      run-none r u t [] d (found b) (search_from_here r b (u ++ t) h) m in
    cc stuck
search_from-none r b (c ∷ v) u t d h m =
    search_from-none r (b ++ c ∷ []) v u t d (<|>-eq-none _ _ h).1 m

-- Where a search finds nothing, no piece of the text is a match.
pub search_re-none :
    (r : Re) (s v u t : Text) (d : Captures)
    → search_re r s ≡ none
    → s ≡ v ++ (u ++ t)
    → Matches r u t [] d
    → ⊥
unfolding search_re
search_re-none r s v u t d h e m = search_from-none r [] v u t d (rw e at h) m

-- A search that finds something has found the first piece that is a match.
before_here : (r : Re) (b s : Text) (m : Match) → run r s [] (found b) ≡ some m → m.before ≡ b
before_here r b s m h =
    let (u, t, d, e, mt, g) = run_sound r s [] (found b) m h in
    sym (ap (λ x. x.before) (some-injective _ _ g))

search_from_first :
    (r : Re) (b v u t : Text) (d : Captures) (m : Match)
    → search_from r b (v ++ (u ++ t)) ≡ some m
    → Matches r u t [] d
    → length m.before ≤ length b + length v
unfolding search_from
search_from_first r b [] u t d m h mt = elim (Option-cases (run r (u ++ t) [] (found b))) [
  | inl (n, e) ↦
      let same : search_from r b (u ++ t) ≡ some n = search_from-found r b (u ++ t) n e in
      let first : m.before ≡ b = before_here r b (u ++ t) m (e ∙ (sym same ∙ h)) in
      omega (arith, ap length first)
  | inr e ↦
      let stuck : found b u t d ≡ none = run-none r u t [] d (found b) e mt in absurd (cc stuck)
]
search_from_first r b (c ∷ v) u t d m h mt =
    elim (<|>-eq-some (run r (c ∷ (v ++ (u ++ t))) [] (found b))
      (search_from r (b ++ c ∷ []) (v ++ (u ++ t))) h) [
        | inl here ↦ omega (arith, ap length (before_here r b (c ∷ (v ++ (u ++ t))) m here))
        | inr (_, later) ↦
            omega (
              arith,
              search_from_first r (b ++ c ∷ []) v u t d m later mt,
              length-append b (c ∷ []),
            )
      ]

pub search_re_first :
    (r : Re) (s v u t : Text) (d : Captures) (m : Match)
    → search_re r s ≡ some m
    → s ≡ v ++ (u ++ t)
    → Matches r u t [] d
    → length m.before ≤ length v
unfolding search_re
search_re_first r s v u t d m h e mt =
    omega (arith, search_from_first r [] v u t d m (rw e at h) mt)
