-- ===== src/Tds/Sql/Rewrite/Numbers.antt =====
-- A number as the splitter sees it, and any encoded value.
use sqlum_ai.Common.{
  ℕ, length, ◌≤◌, ◌≡◌, ◌≢◌, ◌⊎◌, inl, inr, refl, sym, ap, ◌∙◌, subst, true, false, none, List, [],
  ◌∷◌, ◌++◌, append_assoc, append-nil, arith, All, All-append, ◌==◌, ==_iff, Bool-cases,
  Option-cases,
}
use sqlum_ai.Common.Text.{Text, nonempty, strip, strip_by, lstrip_by, rstrip_by, is_space, is_digit}
use sqlum_ai.Common.Regex.{Captures, eps, seq, alt, rep, lit, match_re, run, found, at_end}
use sqlum_ai.Common.Regex.Sound.{Matches, run_sound}
use sqlum_ai.Tds.Sql.{split_loop}
use sqlum_ai.Tds.Sql.Rewrite.{number_pattern, is_number, encode_value}
use sqlum_ai.Tds.Sql.Rewrite.Literals.{
  quote, step_other, rstrip_cons, IsPiece, strip_space, literal-IsPiece,
}

-- A character of a number.
abbrev pub IsNumeric : ℕ → Type 0
IsNumeric c = (c == b'-') ≡ true ⊎ (c == b'.') ≡ true ⊎ is_digit c ≡ true

pub numeric_plain :
    (c : ℕ) → IsNumeric c → (c == quote ≡ false) × (c == b',' ≡ false) × (is_space c ≡ false)
unfolding is_digit is_space
numeric_plain c (inl h) = (ground arith, ground arith, ground arith)
numeric_plain c (inr (inl h)) = (ground arith, ground arith, ground arith)
numeric_plain c (inr (inr h)) = (ground arith, ground arith, ground arith)

split_numeric :
    (w s buf : Text) (out : List Text)
    → All IsNumeric w
    → split_loop (w ++ s) buf false out ≡ split_loop s (buf ++ w) false out
split_numeric [] s buf out h = rw append-nil
split_numeric (c ∷ w) s buf out (hc, h) =
    let (q, k, _) = numeric_plain c hc in
    step_other c (w ++ s) buf false out q (rw k)
    ∙ (split_numeric w s (buf ++ c ∷ []) out h
        ∙ ap (λ b. split_loop s b false out) (append_assoc buf (c ∷ []) w))

rstrip_numeric : (t : Text) → All IsNumeric t → rstrip_by is_space t ≡ t
rstrip_numeric [] h = unfold rstrip_by in refl
rstrip_numeric (d ∷ []) (hd, ht) = let (_, _, k) = numeric_plain d hd in unfold rstrip_by in rw k
rstrip_numeric (d ∷ (e ∷ t)) (hd, ht) =
    let ih = rstrip_numeric (e ∷ t) ht in
    rstrip_cons d (e ∷ t) (ap nonempty ih) ∙ ap (λ r. d ∷ r) ih

strip_numeric : (w : Text) → All IsNumeric w → strip w ≡ w
unfolding strip strip_by
strip_numeric [] h = unfold lstrip_by rstrip_by in refl
strip_numeric (c ∷ w) (hc, h) = ap (rstrip_by is_space) lead ∙ rstrip_numeric (c ∷ w) (hc, h)
  where
    lead : lstrip_by is_space (c ∷ w) ≡ c ∷ w
    lead = let (_, _, k) = numeric_plain c hc in unfold lstrip_by in rw k

abbrev pub NoNewline : Text → Type 0
NoNewline = All (λ c. c ≢ 10)

-- `$` at a text without a newline is its end
end_of_line : (t : Text) → NoNewline t → at_end t ≡ true → t ≡ []
unfolding at_end
end_of_line [] h e = refl
end_of_line (c ∷ []) (h, _) e = absurd (h ((==_iff c 10).0 e))
end_of_line (c ∷ (d ∷ t)) h e = cc

All-append_right : (xs ys : Text) → NoNewline (xs ++ ys) → NoNewline ys
All-append_right [] ys h = h
All-append_right (x ∷ xs) ys (_, h) = All-append_right xs ys h

digits-IsNumeric : (w : Text) → All (λ c. is_digit c ≡ true) w → All IsNumeric w
digits-IsNumeric [] h = tt
digits-IsNumeric (c ∷ w) (hc, h) = (inr (inr hc), digits-IsNumeric w h)

sign_chars : (a s : Text) (c d : Captures) → Matches (alt (lit b'-') eps) a s c d → All IsNumeric a
sign_chars a s c d (inl (x, e, h, _)) = rw e (inl h, tt)
sign_chars a s c d (inr (e, _)) = rw e tt

fraction_chars :
    (f s : Text) (c d : Captures)
    → Matches (alt (seq (lit b'.') (rep true 1 none is_digit)) eps) f s c d
    → All IsNumeric f
fraction_chars f s c d (inl (p, q, e, split, (x, ep, h, _), (_, _, ds, _))) =
    rw (split, ep) (inr (inl h), digits-IsNumeric q ds)
fraction_chars f s c d (inr (e, _)) = rw e tt

nonempty_middle : (a b r : Text) → 1 ≤ length b → nonempty (a ++ (b ++ r)) ≡ true
nonempty_middle [] [] r h = elim h [ ]
nonempty_middle [] (c ∷ b) r h = refl
nonempty_middle (c ∷ a) b r h = refl

number_match :
    (u t : Text) (d : Captures)
    → Matches number_pattern u t [] d
    → All IsNumeric u × (nonempty u ≡ true) × (at_end t ≡ true)
number_match u t d
      (a, r1, e1, s1, ma, (b, r2, e2, s2, (lo, _, ds, _), (f, r3, e3, s3, mf, (z, at, _)))) =
    (
      rw (s1, s2, s3, z)
          (All-append IsNumeric a (b ++ (f ++ [])) (sign_chars a (r1 ++ t) [] e1 ma) (
            All-append IsNumeric b (f ++ []) (digits-IsNumeric b ds)
              (All-append IsNumeric f [] (fraction_chars f (r3 ++ t) e2 e3 mf) tt))),
      rw (s1, s2) (nonempty_middle a b r2 lo),
      at,
    )

-- What the pattern of a number takes as a number.
pub number_chars :
    (v : Text) → is_number v ≡ true → NoNewline v → All IsNumeric v × (nonempty v ≡ true)
unfolding is_number match_re
number_chars v h line = elim (Option-cases (run number_pattern v [] (found []))) [
  | inr e ↦ absurd (ground (arith, e))
  | inl (m, e) ↦
      let (u, t, d, split, mt, _) = run_sound number_pattern v [] (found []) m e in
      let (chars, some_u, at) = number_match u t d mt in
      let whole : v ≡ u =
        split
        ∙ (ap (λ r. u ++ r) (end_of_line t (All-append_right u t (subst NoNewline split line)) at)
            ∙ append-nil u) in
      subst (λ w. All IsNumeric w × (nonempty w ≡ true)) (sym whole) (chars, some_u)
]

number-IsPiece : (v : Text) → All IsNumeric v → nonempty v ≡ true → IsPiece v
number-IsPiece v chars n = record {
  passed = λ s buf out. split_numeric v s buf out chars;
  stripped = strip_numeric v chars;
  stripped_behind_space = strip_space v ∙ strip_numeric v chars;
  some_text = n;
}

pub encode_value-IsPiece : (v : Text) → NoNewline v → IsPiece (encode_value v)
unfolding encode_value
encode_value-IsPiece v line = elim (Bool-cases (is_number v)) [
  | inl num ↦ let (chars, n) = number_chars v num line in rw num (number-IsPiece v chars n)
  | inr other ↦ rw other (literal-IsPiece v)
]
