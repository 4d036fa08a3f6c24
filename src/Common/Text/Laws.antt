-- ===== src/Common/Text/Laws.antt =====
-- Laws of the text functions that the components use.
use Prim.Native.Nat.{ℕ}
use mathlib.Core.Path.{◌≡◌, refl, sym, ap, ap₂}
use mathlib.Core.Logic.{◌↔◌, ◌≢◌, inl, inr}
use mathlib.Core.Bool.{true, false}
use mathlib.Core.List.{[], ◌∷◌, ◌++◌, append_assoc, append-nil}
use native.Mathlib.Omega.{arith}
use sqlum_ai.Common.Tests.{◌==◌, if◌then◌else◌, Bool-cases}
use sqlum_ai.Common.Lists.{All}
use sqlum_ai.Common.Text.{Text, text_eq, lower, lower_char, starts_with, contains, last_part}

pub text_eq_refl : (s : Text) → text_eq s s ≡ true
unfolding text_eq
text_eq_refl [] = refl
text_eq_refl (c ∷ s) = ground (arith, text_eq_refl s)

pub text_eq→eq : (s t : Text) → text_eq s t ≡ true → s ≡ t
unfolding text_eq
text_eq→eq [] [] h = refl
text_eq→eq [] (d ∷ t) h = cc
text_eq→eq (c ∷ s) [] h = cc
text_eq→eq (c ∷ s) (d ∷ t) h = ground (arith, text_eq→eq s t)

pub text_eq_iff : (s t : Text) → (text_eq s t ≡ true) ↔ (s ≡ t)
text_eq_iff s t = (text_eq→eq s t, λ e. rw e (text_eq_refl t))

pub text_eq-false : (s t : Text) → s ≢ t → text_eq s t ≡ false
text_eq-false s t h = ground (arith, text_eq→eq s t)

pub text_eq_comm : (s t : Text) → text_eq s t ≡ text_eq t s
text_eq_comm s t = ground (arith, text_eq_iff s t, text_eq_iff t s)

lower_char_idem : (c : ℕ) → lower_char (lower_char c) ≡ lower_char c
unfolding lower_char
lower_char_idem c = ground arith

-- lowering twice is lowering once
pub lower-lower : (s : Text) → lower (lower s) ≡ lower s
unfolding lower
lower-lower [] = refl
lower-lower (c ∷ s) = ap₂ (λ d t. d ∷ t) (lower_char_idem c) (lower-lower s)

pub lower-append : (s t : Text) → lower (s ++ t) ≡ lower s ++ lower t
unfolding lower
lower-append [] t = refl
lower-append (c ∷ s) t = ap (λ r. lower_char c ∷ r) (lower-append s t)

pub starts_with-append : (p s : Text) → starts_with (p ++ s) p ≡ true
unfolding starts_with
starts_with-append [] [] = refl
starts_with-append [] (c ∷ s) = refl
starts_with-append (c ∷ p) s = ground (arith, starts_with-append p s)

-- `p in s` exactly says that `s` is some text, `p` and some text
pub starts_with→split : (s p : Text) → starts_with s p ≡ true → (t : Text) × (s ≡ p ++ t)
unfolding starts_with
starts_with→split s [] h = (s, refl)
starts_with→split [] (d ∷ p) h = cc
starts_with→split (c ∷ s) (d ∷ p) h =
    let (t, e) = starts_with→split s p (ground arith) in (t, ground arith)

pub contains→split :
    (s p : Text) → contains s p ≡ true → (u : Text) × (t : Text) × (s ≡ u ++ (p ++ t))
unfolding contains
contains→split [] p h = let (t, e) = starts_with→split [] p h in ([], t, e)
contains→split (c ∷ s) p h = elim (Bool-cases (starts_with (c ∷ s) p)) [
  | inl here ↦ let (t, e) = starts_with→split (c ∷ s) p here in ([], t, e)
  | inr later ↦ let (u, t, e) = contains→split s p (ground arith) in (c ∷ u, t, ap (λ r. c ∷ r) e)
]

pub contains-split : (u p t : Text) → contains (u ++ (p ++ t)) p ≡ true
unfolding contains
contains-split [] [] [] = unfold starts_with in refl
contains-split [] [] (c ∷ t) = unfold starts_with in refl
contains-split [] (d ∷ p) t = ground (arith, starts_with-append (d ∷ p) t)
contains-split (c ∷ u) p t = ground (arith, contains-split u p t)

-- the last part of a text that has the separator is the last part of what follows it
pub last_part-append : (d : ℕ) (cur u s : Text) → last_part d cur (u ++ (d ∷ s)) ≡ last_part d [] s
unfolding last_part
last_part-append d cur [] s = ground arith
last_part-append d cur (c ∷ u) s = last_part-append d (if c == d then [] else cur ++ c ∷ []) u s

-- a text without the separator is its own last part
pub last_part-plain : (d : ℕ) (cur s : Text) → All (λ c. c ≢ d) s → last_part d cur s ≡ cur ++ s
unfolding last_part
last_part-plain d cur [] h = sym (append-nil cur)
last_part-plain d cur (c ∷ s) (hc, hs) =
    ground (arith, last_part-plain d (cur ++ c ∷ []) s hs, append_assoc cur (c ∷ []) s)

-- a shared front does not matter to equality
pub text_eq-append : (p s t : Text) → text_eq (p ++ s) (p ++ t) ≡ text_eq s t
unfolding text_eq
text_eq-append [] s t = refl
text_eq-append (c ∷ p) s t = ground (arith, text_eq-append p s t)
