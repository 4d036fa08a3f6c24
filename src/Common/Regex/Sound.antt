-- ===== src/Common/Regex/Sound.antt =====
-- What a match says of the text, and what the lack of one says: the matcher against a relation
-- that names no search order.
use sqlum_ai.Common.Tests.{◌==◌, if◌then◌else◌, <|>-eq-some, Bool-cases}
use sqlum_ai.Common.Lists.{length, All}
use sqlum_ai.Common.Text.{Text}
use sqlum_ai.Common.Regex.{
  Captures, Re, eps, chr, seq, alt, rep, cap, end_of_text, room, one_less, at_end, Cont,
  repeat_greedy, repeat_lazy, run, Match, found, search_from, search_re, match_re,
}
use Prim.Native.Nat.{ℕ, zero, suc, ◌-◌, ◌≤◌}
use mathlib.Core.Path.{subst, ◌≡◌, refl, ap, sym, ◌∙◌}
use mathlib.Core.Logic.{◌⊎◌, inl, inr}
use mathlib.Core.Bool.{Bool, true, false, ◌&&◌}
use mathlib.Core.Option.{Option, none, some, some-injective}
use mathlib.Core.List.{[], ◌∷◌, ◌++◌, append_assoc, append-nil}
use native.Mathlib.Omega.{arith}

-- `n` repeats are within the bounds.
abbrev pub AtMost : ℕ → Option ℕ → Type 0
AtMost n none = Unit {0}
AtMost n (some m) = n ≤ m

-- The text `u`, with `s` behind it, is a match of the pattern that takes the captures `c` to `d`.
abbrev pub Matches : Re → Text → Text → Captures → Captures → Type 0
Matches eps u s c d = (u ≡ []) × (d ≡ c)
Matches (chr p) u s c d = (x : ℕ) × (u ≡ x ∷ []) × (p x ≡ true) × (d ≡ c)
Matches (seq a b) u s c d =
    (v : Text) × (w : Text) × (e : Captures) × (u ≡ v ++ w)
    × Matches a v (w ++ s) c e
    × Matches b w s e d
Matches (alt a b) u s c d = Matches a u s c d ⊎ Matches b u s c d
Matches (rep g min max p) u s c d =
    (min ≤ length u) × AtMost (length u) max × All (λ x. p x ≡ true) u × (d ≡ c)
Matches (cap n r) u s c d = (e : Captures) × Matches r u s c e × (d ≡ (n, u) ∷ e)
Matches end_of_text u s c d = (u ≡ []) × (at_end s ≡ true) × (d ≡ c)

-- What a repeat that answers `x` has taken, from `u` and `s` on.
abbrev Taken :
    {R : Type 0} → ℕ → Option ℕ → (ℕ → Bool) → Text → Text → (Text → Text → Option R) → R → Type 0
Taken min max p u s k x =
    (v : Text) × (t : Text) × (s ≡ v ++ t)
    × (min ≤ length v)
    × AtMost (length v) max
    × All (λ y. p y ≡ true) v
    × (k (u ++ v) t ≡ some x)

module _ {R : Type 0} (p : ℕ → Bool) (k : Text → Text → Option R) (x : R) where
  Taken-none :
      (min : ℕ) (max : Option ℕ) (u s : Text)
      → (if min == 0 then k u s else none) ≡ some x
      → Taken min max p u s k x
  Taken-none min none u s h = ([], s, refl, ground arith, tt, tt, rw append-nil (ground arith))
  Taken-none min (some m) u s h =
      ([], s, refl, ground arith, ground arith, tt, rw append-nil (ground arith))

  Taken-more :
      (min : ℕ) (max : Option ℕ) (u s : Text) (c : ℕ)
      → (room max && p c) ≡ true
      → Taken (min - 1) (one_less max) p (u ++ c ∷ []) s k x
      → Taken min max p u (c ∷ s) k x
  Taken-more min none u s c h (v, t, e, lo, hi, a, r) =
      (c ∷ v, t, ap (λ z. c ∷ z) e, omega arith, tt, (ground arith, a), rw append_assoc at r)
  Taken-more min (some zero) u s c h (v, t, e, lo, hi, a, r) = cc
  Taken-more min (some (suc n)) u s c h (v, t, e, lo, hi, a, r) = (
    c ∷ v,
    t,
    ap (λ z. c ∷ z) e,
    omega arith,
    omega arith,
    (ground arith, a),
    rw append_assoc at r,
  )

  greedy_sound :
      (min : ℕ) (max : Option ℕ) (u s : Text)
      → repeat_greedy min max p u s k ≡ some x
      → Taken min max p u s k x
  unfolding repeat_greedy
  greedy_sound min max u [] h = Taken-none min max u [] h
  greedy_sound min max u (c ∷ s) h = elim (Bool-cases (room max && p c)) [
    | inl go ↦
        elim (<|>-eq-some (repeat_greedy (min - 1) (one_less max) p (u ++ c ∷ []) s k) _
          (rw go at h)) [
            | inl more ↦
                Taken-more min max u s c go
                  (greedy_sound (min - 1) (one_less max) (u ++ c ∷ []) s more)
            | inr (_, stop) ↦ Taken-none min max u (c ∷ s) stop
          ]
    | inr halt ↦ Taken-none min max u (c ∷ s) (rw halt at h)
  ]

  lazy_sound :
      (min : ℕ) (max : Option ℕ) (u s : Text)
      → repeat_lazy min max p u s k ≡ some x
      → Taken min max p u s k x
  unfolding repeat_lazy
  lazy_sound min max u [] h = Taken-none min max u [] h
  lazy_sound min max u (c ∷ s) h = elim (Bool-cases (room max && p c)) [
    | inl go ↦ elim (<|>-eq-some (if min == 0 then k u (c ∷ s) else none) _ (rw go at h)) [
      | inl stop ↦ Taken-none min max u (c ∷ s) stop
      | inr (_, more) ↦
          Taken-more min max u s c go (lazy_sound (min - 1) (one_less max) (u ++ c ∷ []) s more)
    ]
    | inr halt ↦ Taken-none min max u (c ∷ s) (rw halt at h)
  ]

-- A run that answers has gone on from a match.
abbrev Ran : {R : Type 0} → Re → Text → Captures → Cont R → R → Type 0
Ran r s c k x =
    (u : Text) × (t : Text) × (d : Captures) × (s ≡ u ++ t) × Matches r u t c d × (k u t d ≡ some x)

pub run_sound :
    {R : Type 0} (r : Re) (s : Text) (c : Captures) (k : Cont R) (x : R)
    → run r s c k ≡ some x
    → Ran r s c k x
unfolding run
run_sound eps s c k x h = ([], s, c, refl, (refl, refl), h)
run_sound (chr p) [] c k x h = cc
run_sound (chr p) (y ∷ s) c k x h =
    (y ∷ [], s, c, refl, (y, refl, ground arith, refl), ground arith)
run_sound (seq a b) s c k x h =
    let (v, t, e, e1, m1, h1) = run_sound a s c _ x h in
    let (w, t', d, e2, m2, h2) = run_sound b t e _ x h1 in
    (
      v ++ w,
      t',
      d,
      e1 ∙ (ap (λ z. v ++ z) e2 ∙ sym (append_assoc v w t')),
      (v, w, e, refl, rw (← e2) m1, m2),
      h2,
    )
run_sound (alt a b) s c k x h = elim (<|>-eq-some (run a s c k) (run b s c k) h) [
  | inl l ↦ let (u, t, d, e, m, g) = run_sound a s c k x l in (u, t, d, e, inl m, g)
  | inr (_, l) ↦ let (u, t, d, e, m, g) = run_sound b s c k x l in (u, t, d, e, inr m, g)
]
run_sound (rep true min max p) s c k x h =
    let (v, t, e, lo, hi, a, r) = greedy_sound p _ x min max [] s h in
    (v, t, c, e, (lo, hi, a, refl), r)
run_sound (rep false min max p) s c k x h =
    let (v, t, e, lo, hi, a, r) = lazy_sound p _ x min max [] s h in
    (v, t, c, e, (lo, hi, a, refl), r)
run_sound (cap n r) s c k x h =
    let (u, t, d, e, m, g) = run_sound r s c _ x h in (u, t, (n, u) ∷ d, e, (d, m, refl), g)
run_sound end_of_text s c k x h = ([], s, c, refl, (refl, ground arith, refl), ground arith)

-- The text is what stands before the match, the match, and what stands behind it.
abbrev pub Finds : Re → Text → Match → Type 0
Finds r s m = (s ≡ m.before ++ (m.whole ++ m.after)) × Matches r m.whole m.after [] m.captures

found_here : (r : Re) (b s : Text) (m : Match) → run r s [] (found b) ≡ some m → Finds r (b ++ s) m
found_here r b s m h =
    let (u, t, d, e, mt, g) = run_sound r s [] (found b) m h in
    subst (λ n. Finds r (b ++ s) n) (some-injective _ _ g) (ap (λ z. b ++ z) e, mt)

search_from_sound :
    (r : Re) (b s : Text) (m : Match) → search_from r b s ≡ some m → Finds r (b ++ s) m
unfolding search_from
search_from_sound r b [] m h = found_here r b [] m h
search_from_sound r b (c ∷ s) m h =
    elim (<|>-eq-some (run r (c ∷ s) [] (found b)) (search_from r (b ++ c ∷ []) s) h) [
      | inl here ↦ found_here r b (c ∷ s) m here
      | inr (_, later) ↦ rw append_assoc at (search_from_sound r (b ++ c ∷ []) s m later)
    ]

pub search_re_sound : (r : Re) (s : Text) (m : Match) → search_re r s ≡ some m → Finds r s m
unfolding search_re
search_re_sound r s m h = search_from_sound r [] s m h

pub match_re_sound : (r : Re) (s : Text) (m : Match) → match_re r s ≡ some m → Finds r s m
unfolding match_re
match_re_sound r s m h = found_here r [] s m h

-- The pattern has no groups.
abbrev pub plain : Re → Bool
plain eps = true
plain (chr p) = true
plain (seq a b) = plain a && plain b
plain (alt a b) = plain a && plain b
plain (rep g min max p) = true
plain (cap n r) = false
plain end_of_text = true

-- A pattern with no groups captures nothing.
pub plain-captures :
    (r : Re) (u s : Text) (c d : Captures) → plain r ≡ true → Matches r u s c d → d ≡ c
plain-captures eps u s c d h m = m.1
plain-captures (chr p) u s c d h m = m.3
plain-captures (seq a b) u s c d h (v, w, e, split, ma, mb) =
    plain-captures b w s e d (ground arith) mb ∙ plain-captures a v (w ++ s) c e (ground arith) ma
plain-captures (alt a b) u s c d h (inl m) = plain-captures a u s c d (ground arith) m
plain-captures (alt a b) u s c d h (inr m) = plain-captures b u s c d (ground arith) m
plain-captures (rep g min max p) u s c d h m = m.3
plain-captures (cap n r) u s c d h m = cc
plain-captures end_of_text u s c d h m = m.2

-- The text is in the pattern's language, in some place.
pub record InLanguage (r : Re) (u : Text) : Type 0 where
  pub behind : Text
  pub captured : Captures
  pub captures : Captures
  pub matches : Matches r u behind captured captures

-- A pattern that is three groups: the match is what they captured, one after the other.
pub three_groups :
    (a b c : Re) (u s : Text) (d : Captures)
    → plain a ≡ true
    → plain b ≡ true
    → plain c ≡ true
    → Matches (seq (cap 1 a) (seq (cap 2 b) (cap 3 c))) u s [] d
    → (x : Text) × (y : Text) × (z : Text) × (u ≡ x ++ (y ++ z))
      × (d ≡ (3, z) ∷ ((2, y) ∷ ((1, x) ∷ [])))
      × InLanguage a x
      × InLanguage b y
      × InLanguage c z
three_groups a b c u s d pa pb pc
      (x, yz, e1, split, (f1, ma, g1), (y, z, e2, split2, (f2, mb, g2), (f3, mc, g3))) =
    let q1 = plain-captures a x (yz ++ s) [] f1 pa ma in
    let q2 = plain-captures b y (z ++ s) e1 f2 pb mb in
    let q3 = plain-captures c z s e2 f3 pc mc in
    (
      x,
      y,
      z,
      split ∙ ap (λ t. x ++ t) split2,
      cc (q1, q2, q3, g1, g2, g3),
      record { behind = yz ++ s; captured = []; captures = f1; matches = ma },
      record { behind = z ++ s; captured = e1; captures = f2; matches = mb },
      record { behind = s; captured = e2; captures = f3; matches = mc },
    )
