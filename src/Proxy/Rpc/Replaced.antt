-- ===== src/Proxy/Rpc/Replaced.antt =====
-- `payload.replace(old, new, 1)`: the first stretch and no other.
use sqlum_ai.Common.{
  ℕ, ◌≤◌, ◌≡◌, inl, inr, refl, sym, ap, ◌∙◌, false, none, some, some-injective, [], ◌∷◌, ◌++◌,
  append-nil, arith, length, drop, Bool-cases, Option-cases,
}
use sqlum_ai.Common.Text.{starts_with}
use sqlum_ai.Common.Text.Laws.{starts_with→split, starts_with-append}
use sqlum_ai.Tds.Utf16.{Bytes}
use sqlum_ai.Proxy.Rpc.{replace_once}

-- `a` with the first stretch `old` in it replaced by `new`
pub record Replaces (old new a b : Bytes) : Type 0 where
  pub before : Bytes
  pub after : Bytes
  pub was : a ≡ before ++ (old ++ after)
  pub is_now : b ≡ before ++ (new ++ after)
  pub first : (x y : Bytes) → a ≡ x ++ (old ++ y) → length before ≤ length x

abbrev tail_of : Bytes → Bytes
tail_of [] = []
tail_of (x ∷ xs) = xs

drop_prefix : (xs ys : Bytes) → drop (length xs) (xs ++ ys) ≡ ys
drop_prefix [] ys = refl
drop_prefix (x ∷ xs) ys = drop_prefix xs ys

end_nil : (o t : Bytes) → [] ≡ o ++ t → t ≡ []
end_nil [] t h = sym h
end_nil (x ∷ o) t h = cc

pub replace_once-Replaces :
    (old new a b : Bytes) → replace_once old new a ≡ some b → Replaces old new a b
unfolding replace_once
replace_once-Replaces old new [] b h = elim (Bool-cases (starts_with [] old)) [
  | inr other ↦ absurd (ground (arith, other))
  | inl at_front ↦
      let (t, e) = starts_with→split [] old at_front in
      record {
        before = [];
        after = t;
        was = e;
        is_now =
            sym (some-injective _ _ (rw at_front at h))
            ∙ (sym (append-nil new) ∙ ap (λ r. new ++ r) (sym (end_nil old t e)));
        first = λ x y q. omega arith;
      }
]
replace_once-Replaces old new (c ∷ a) b h = elim (Bool-cases (starts_with (c ∷ a) old)) [
  | inl at_front ↦
      let (t, e) = starts_with→split (c ∷ a) old at_front in
      record {
        before = [];
        after = t;
        was = e;
        is_now =
            sym (some-injective _ _ (rw at_front at h))
            ∙ ap (λ r. new ++ r) (ap (drop (length old)) e ∙ drop_prefix old t);
        first = λ x y q. omega arith;
      }
  | inr later ↦ elim (Option-cases (replace_once old new a)) [
    | inr e ↦ absurd (ground (arith, later, e))
    | inl (d, e) ↦
        let r = replace_once-Replaces old new a d e in
        record {
          before = c ∷ r.before;
          after = r.after;
          was = ap (λ l. c ∷ l) r.was;
          is_now =
              sym (some-injective _ _ (rw (replace_once, later, e) at h))
              ∙ ap (λ l. c ∷ l) r.is_now;
          first = not_here old c a later r.before r.first;
        }
  ]
]
  where
    not_here :
        (old : Bytes) (c : ℕ) (a : Bytes)
        → starts_with (c ∷ a) old ≡ false
        → (before : Bytes) → ((x y : Bytes) → a ≡ x ++ (old ++ y) → length before ≤ length x)
        → (x y : Bytes) → c ∷ a ≡ x ++ (old ++ y)
        → length (c ∷ before) ≤ length x
    not_here old c a later before h [] y q =
        absurd (cc (later, ap (λ l. starts_with l old) q, starts_with-append old y))
    not_here old c a later before h (d ∷ x) y q = omega (arith, h x y (ap tail_of q))

pub replace_once-none :
    (old new a x y : Bytes) → replace_once old new a ≡ none → a ≡ x ++ (old ++ y) → ⊥
unfolding replace_once
replace_once-none old new [] x y h q = elim (Bool-cases (starts_with [] old)) [
  | inl at_front ↦ cc (rw at_front at h)
  | inr other ↦ nowhere x q other
]
  where
    nowhere : (x : Bytes) → [] ≡ x ++ (old ++ y) → starts_with [] old ≡ false → ⊥
    nowhere [] q other = cc (other, ap (λ l. starts_with l old) q, starts_with-append old y)
    nowhere (d ∷ x) q other = cc q
replace_once-none old new (c ∷ a) x y h q = elim (Bool-cases (starts_with (c ∷ a) old)) [
  | inl at_front ↦ cc (rw at_front at h)
  | inr later ↦ elim (Option-cases (replace_once old new a)) [
    | inl (d, e) ↦ cc (rw (later, e) at h)
    | inr e ↦ deeper (λ z. replace_once-none old new a z y e) x q later
  ]
]
  where
    deeper :
        ((z : Bytes) → a ≡ z ++ (old ++ y) → ⊥)
        → (x : Bytes) → c ∷ a ≡ x ++ (old ++ y)
        → starts_with (c ∷ a) old ≡ false
        → ⊥
    deeper no_later [] q later = cc (later, ap (λ l. starts_with l old) q, starts_with-append old y)
    deeper no_later (d ∷ x) q later = no_later x (ap tail_of q)
