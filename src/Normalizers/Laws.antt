-- ===== src/Normalizers/Laws.antt =====
-- What the normal forms look like, and that a normal form is its own.
use sqlum_ai.Common.{
  ℕ, ◌==◌, ◌≡◌, inl, inr, refl, ap, subst, Bool, true, ◌&&◌, some, some-injective, [], ◌∷◌, arith,
  All, All-drop, keep, drop, length, length-drop, Bool-cases, is_some,
}
use sqlum_ai.Common.Text.{Text, codes, starts_with, is_digit, is_space}
use sqlum_ai.Common.Regex.{match_re}
use sqlum_ai.Normalizers.{
  not_space, without_spaces, drop_trunk, international, swedish, normalize_phone_se, five_digits,
  normalize_postal, digits_of, normalize_orgnr_se,
}

keep-All : (p : ℕ → Bool) (s : Text) → All (λ c. p c ≡ true) (keep p s)
keep-All p [] = tt
keep-All p (c ∷ s) = elim (Bool-cases (p c)) [
  | inl in_it ↦ rw in_it (in_it, keep-All p s)
  | inr out ↦ rw out (keep-All p s)
]

keep_same : (p : ℕ → Bool) (s : Text) → All (λ c. p c ≡ true) s → keep p s ≡ s
keep_same p [] h = refl
keep_same p (c ∷ s) (h, hs) = rw h (ap (λ t. c ∷ t) (keep_same p s hs))

-- A postal code's normal form has no space and is its own normal form.
pub normalize_postal-again :
    (value : Text) (r : Text × Text)
    → normalize_postal value ≡ some r
    → All (λ c. not_space c ≡ true) r.0 × (normalize_postal r.0 ≡ some r)
unfolding normalize_postal without_spaces
normalize_postal-again value r h =
    elim (Bool-cases (is_some (match_re five_digits (without_spaces value)))) [
      | inr other ↦ absurd (ground (arith, other))
      | inl five ↦
          let e : (without_spaces value, codes "postal") ≡ r = some-injective _ _ (rw five at h) in
          subst (λ q. All (λ c. not_space c ≡ true) q.0 × (normalize_postal q.0 ≡ some q)) e
            (
              keep-All not_space value,
              rw (keep_same not_space (keep not_space value) (keep-All not_space value), five),
            )
    ]

orgnr_again :
    (d : Text)
    → All (λ c. is_digit c ≡ true) d
    → length d ≡ 10
    → normalize_orgnr_se d ≡ some (d, codes "orgnr")
unfolding normalize_orgnr_se digits_of
orgnr_again d h ten = rw (keep_same is_digit d h) (ground (arith, ten))

abbrev IsOrgnr : Text × Text → Type 0
IsOrgnr q = All (λ c. is_digit c ≡ true) q.0 × (length q.0 ≡ 10) × (normalize_orgnr_se q.0 ≡ some q)

-- An organisation number's normal form is ten digits and is its own normal form, also where a century
-- prefix has been cut off.
pub normalize_orgnr_se-again :
    (value : Text) (r : Text × Text)
    → normalize_orgnr_se value ≡ some r
    → All (λ c. is_digit c ≡ true) r.0 × (length r.0 ≡ 10) × (normalize_orgnr_se r.0 ≡ some r)
unfolding normalize_orgnr_se digits_of
normalize_orgnr_se-again value r h =
    let d : Text = keep is_digit value in
    elim (Bool-cases (length d == 10)) [
      | inl ten ↦
          let e : (d, codes "orgnr") ≡ r = some-injective _ _ (rw ten at h) in
          subst IsOrgnr e (
            keep-All is_digit value,
            ground (arith, ten),
            orgnr_again d (keep-All is_digit value) (ground (arith, ten)),
          )
      | inr other ↦ elim (Bool-cases (length d == 12 && starts_with d (codes "16"))) [
        | inr no_twelve ↦ absurd (ground (arith, other, no_twelve))
        | inl twelve ↦
            let e : (drop 2 d, codes "orgnr") ≡ r = some-injective _ _ (rw (other, twelve) at h) in
            let digits : All (λ c. is_digit c ≡ true) (drop 2 d) =
              All-drop _ 2 d (keep-All is_digit value) in
            let l : length d ≡ 12 = ground (arith, twelve) in
            let ten : length (drop 2 d) ≡ 10 = omega (arith, length-drop 2 d) in
            subst IsOrgnr e (digits, ten, orgnr_again (drop 2 d) digits ten)
      ]
    ]

drop_trunk-spaceless :
    (s : Text) → All (λ c. not_space c ≡ true) s → All (λ c. not_space c ≡ true) (drop_trunk s)
unfolding drop_trunk
drop_trunk-spaceless (c ∷ (d ∷ (e ∷ s))) (hc, (hd, (he, hs))) =
    elim (Bool-cases (c == b'(' && d == b'0' && e == b')')) [
      | inl cut ↦ rw (drop_trunk, cut) (drop_trunk-spaceless s hs)
      | inr kept ↦ rw (drop_trunk, kept) (hc, drop_trunk-spaceless (d ∷ (e ∷ s)) (hd, (he, hs)))
    ]
drop_trunk-spaceless [] h = h
drop_trunk-spaceless s h = h

international-spaceless :
    (s : Text) → All (λ c. not_space c ≡ true) s → All (λ c. not_space c ≡ true) (international s)
unfolding international not_space is_space
international-spaceless s h = elim (Bool-cases (starts_with s (codes "00"))) [
  | inl long_distance ↦ rw (international, long_distance) (refl, All-drop _ 2 s h)
  | inr other ↦ rw (international, other) h
]

swedish-spaceless :
    (s : Text) → All (λ c. not_space c ≡ true) s → All (λ c. not_space c ≡ true) (swedish s)
unfolding swedish not_space is_space
swedish-spaceless s h = elim (Bool-cases (starts_with s (codes "0"))) [
  | inl national ↦ rw (swedish, national) (refl, (refl, (refl, All-drop _ 1 s h)))
  | inr other ↦ rw (swedish, other) h
]

-- A phone number's normal form begins with +46 and has no space.
pub normalize_phone_se-prefix :
    (value : Text) (r : Text × Text)
    → normalize_phone_se value ≡ some r
    → (starts_with r.0 (codes "+46") ≡ true) × All (λ c. not_space c ≡ true) r.0
unfolding normalize_phone_se without_spaces
normalize_phone_se-prefix value r h =
    let v : Text = swedish (international (drop_trunk (keep not_space value))) in
    elim (Bool-cases (starts_with v (codes "+46"))) [
      | inr other ↦ absurd (ground (arith, other))
      | inl starts ↦
          let e : (v, codes "phone") ≡ r = some-injective _ _ (rw starts at h) in
          subst (λ q. (starts_with q.0 (codes "+46") ≡ true) × All (λ c. not_space c ≡ true) q.0) e
            (
              starts,
              swedish-spaceless _
                  (international-spaceless _ (drop_trunk-spaceless _ (keep-All not_space value))),
            )
    ]
