-- ===== src/Common/Show.antt =====
-- `str(n)` of a number, the order of texts, and `sorted`.
use Prim.Native.Nat.{ℕ, zero, suc, ◌+◌, ◌*◌, ◌/◌, ◌%◌, ◌≤◌}
use mathlib.Core.Path.{◌≡◌, refl, ap, ◌∙◌}
use mathlib.Core.Logic.{inl, inr}
use mathlib.Core.Bool.{Bool, true, false}
use mathlib.Core.Option.{some}
use mathlib.Core.List.{List, [], ◌∷◌, ◌++◌}
use native.Mathlib.Omega.{arith}
use sqlum_ai.Common.Tests.{ltb, ◌==◌, if◌then◌else◌, Bool-cases, Option-cases}
use sqlum_ai.Common.Text.{Text}
use sqlum_ai.Common.Integers.{digits_value, digit_value}

-- The digits of a number, the first place first. Each round takes the last digit away, so `n` rounds
-- are enough for `n`.
unfoldable pub digits : ℕ → ℕ → Text
digits zero n = (48 + n % 10) ∷ []
digits (suc fuel) n =
    let front = digits fuel (n / 10) in
    if ltb n 10 then (48 + n) ∷ [] else front ++ (48 + n % 10) ∷ []

unfoldable pub show : ℕ → Text
unfolding digits
show n = digits n n

digits_value-append :
    (base acc d v : ℕ) (due : Bool) (s : Text)
    → (d == 95) ≡ false
    → digit_value base d ≡ some v
    → (n : ℕ) → digits_value base acc due s ≡ some n
    → digits_value base acc due (s ++ d ∷ []) ≡ some (n * base + v)
unfolding digits_value
digits_value-append base acc d v true [] hd hv n h = cc
digits_value-append base acc d v false [] hd hv n h = rw (hd, hv) (ground (arith, h))
digits_value-append base acc d v due (c ∷ s) hd hv n h = elim (Bool-cases (c == b'_')) [
  | inl line ↦ elim (Bool-cases due) [
    | inl first ↦ absurd (ground (arith, line, first))
    | inr later ↦
        rw (line, later)
          (digits_value-append base acc d v true s hd hv n (rw (digits_value, line, later) at h))
  ]
  | inr other ↦ elim (Option-cases (digit_value base c)) [
    | inr e ↦ absurd (ground (arith, other, e))
    | inl (w, e) ↦
        rw (digits_value, other, e)
          (digits_value-append base (acc * base + w) d v false s hd hv n
            (rw (digits_value, other, e) at h))
  ]
]

last_digit : (n : ℕ) → digit_value 10 (48 + n % 10) ≡ some (n % 10)
unfolding digit_value
last_digit n = ground arith

digits_value-digits : (fuel n : ℕ) → n ≤ fuel → digits_value 10 0 true (digits fuel n) ≡ some n
unfolding digits
digits_value-digits zero n h = rw (the_zero) (unfold digits_value digit_value in refl)
  where
    the_zero : n ≡ 0
    the_zero = omega arith
digits_value-digits (suc fuel) n h = elim (Bool-cases (ltb n 10)) [
  | inl small ↦ rw (digits, small) (unfold digits_value digit_value in ground (arith, small))
  | inr big ↦
      rw (digits, big)
        (digits_value-append 10 0 (48 + n % 10) (n % 10) true (digits fuel (n / 10)) (ground arith)
            (last_digit n) (n / 10) (digits_value-digits fuel (n / 10) (ground (arith, big)))
          ∙ ap some (omega arith))
]

-- The digits that `str` writes of a number are read back by `int` as that number.
pub digits_value-show : (n : ℕ) → digits_value 10 0 true (show n) ≡ some n
unfolding show
digits_value-show n = digits_value-digits n n (omega arith)

-- `s < t` of two texts
unfoldable pub text_lt : Text → Text → Bool
text_lt s [] = false
text_lt [] (d ∷ t) = true
text_lt (c ∷ s) (d ∷ t) =
    let later = text_lt s t in if ltb c d then true else if c == d then later else false

module _ {A : Type 0} (less : A → A → Bool) where
  -- an element that stood in front of the sorted ones stays in front of its equals
  unfoldable pub insert : A → List A → List A
  insert x [] = x ∷ []
  insert x (y ∷ ys) = let rest = insert x ys in if less y x then y ∷ rest else x ∷ (y ∷ ys)

  -- `sorted`, by a strict order
  unfoldable pub sorted : List A → List A
  unfolding insert
  sorted [] = []
  sorted (x ∷ xs) = insert x (sorted xs)

-- `c.most_common()`: the greater counts first
unfoldable pub most_common : List (Text × ℕ) → List (Text × ℕ)
unfolding sorted
most_common = sorted (λ a b. ltb b.1 a.1)

-- the entries in the order of their keys
unfoldable pub by_key : {A : Type 0} → List (Text × A) → List (Text × A)
unfolding sorted text_lt
by_key = sorted (λ a b. text_lt a.0 b.0)
