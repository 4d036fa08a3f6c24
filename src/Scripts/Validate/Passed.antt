-- ===== src/Scripts/Validate/Passed.antt =====
-- When the validator is content with a file.
use sqlum_ai.Common.{
  ℕ, suc, zero, ◌+◌, ◌==◌, ◌≡◌, ◌⊎◌, refl, Bool, true, false, Option, none, some, List, [], ◌∷◌,
  arith, length, Option-cases, Bool-cases, inl, inr, some-injective,
}
use mathlib.Core.Option
use sqlum_ai.Scripts.Validate.{
  Raw, RuleClass, Rid, Made, made, not_valid, raises, make_rule, hashable, is_seen, counted,
  count_errors, seen_after, rules, validation_ok, main,
}

-- The class makes a rule of each, with an id that can be in a set, that none of those seen is and that no
-- rule before it has.
abbrev pub Accepted : RuleClass → List Rid → List Raw → Type 0
Accepted cls seen [] = Unit {0}
Accepted cls seen (r ∷ rs) =
    (rid : Rid) × (make_rule cls r ≡ made rid)
    × (hashable rid ≡ true)
    × (is_seen rid seen ≡ false)
    × Accepted cls (rid ∷ seen) rs

Made-cases : (m : Made) → ((rid : Rid) × (m ≡ made rid)) ⊎ ((m ≡ not_valid) ⊎ (m ≡ raises))
Made-cases (made rid) = inl (rid, refl)
Made-cases not_valid = inr (inl refl)
Made-cases raises = inr (inr refl)

counted-zero :
    (repeated : Bool) (o : Option ℕ)
    → Option.map (counted repeated) o ≡ some 0
    → (repeated ≡ false) × (o ≡ some 0)
counted-zero true none h = cc
counted-zero true (some n) h = absurd (omega (arith, some-injective _ _ h))
counted-zero false none h = cc
counted-zero false (some n) h = (refl, h)

no_suc : (o : Option ℕ) → Option.map suc o ≡ some 0 → ⊥
no_suc none q = cc
no_suc (some n) q = omega (arith, some-injective _ _ q)

module _ (cls : RuleClass) where
  count_errors-Accepted :
      (seen : List Rid) (rs : List Raw) → count_errors cls seen rs ≡ some 0 → Accepted cls seen rs
  unfolding count_errors
  count_errors-Accepted seen [] h = tt
  count_errors-Accepted seen (r ∷ rs) h = elim (Made-cases (make_rule cls r)) [
    | inr (inr e) ↦ absurd (cc (rw (count_errors, e) at h))
    | inr (inl e) ↦ absurd (no_suc (count_errors cls seen rs) (rw (count_errors, e) at h))
    | inl (rid, e) ↦ elim (Bool-cases (hashable rid)) [
      | inr unhashable ↦ absurd (cc (rw (count_errors, e, unhashable) at h))
      | inl ok ↦
          let (fresh, later) =
            counted-zero (is_seen rid seen) (count_errors cls (rid ∷ seen) rs)
              (rw (count_errors, e, ok) at h) in
          (rid, e, ok, fresh, count_errors-Accepted (rid ∷ seen) rs later)
    ]
  ]

  length-seen_after :
      (seen : List Rid) (rs : List Raw)
      → Accepted cls seen rs
      → length (seen_after cls seen rs) ≡ length seen + length rs
  unfolding seen_after
  length-seen_after seen [] h = omega arith
  length-seen_after seen (r ∷ rs) (rid, e, ok, fresh, h) =
      rw (seen_after, e, fresh) (omega (arith, length-seen_after (rid ∷ seen) rs h))

  validation_ok-injective : (m n : ℕ) → validation_ok m ≡ validation_ok n → m ≡ n
  validation_ok-injective m n e = cc

  pub main-rules :
      (raws : List Raw) (n : ℕ)
      → main cls (rules raws) ≡ validation_ok n
      → Accepted cls [] raws × (n ≡ length raws)
  unfolding main
  main-rules raws n h = elim (Option-cases (count_errors cls [] raws)) [
    | inr e ↦ absurd (cc (rw (main, e) at h))
    | inl (suc errors, e) ↦
        let nonzero : (suc errors == 0) ≡ false = ground arith in
        absurd (cc (rw (main, e, nonzero) at h))
    | inl (zero, e) ↦
        let accepted = count_errors-Accepted [] raws e in
        let printed = validation_ok-injective _ n (rw (main, e) at h) in
        (accepted, omega (arith, printed, length-seen_after [] raws accepted))
  ]
