-- ===== src/Tds/Sql/Rewrite/Literals.antt =====
-- A quoted literal as the splitter sees it.
use sqlum_ai.Common.{
  ℕ, ◌≡◌, inl, inr, refl, sym, ap, ◌∙◌, Bool, true, false, not, ◌&&◌, List, [], ◌∷◌, ◌++◌,
  append_assoc, append-nil, arith, ◌==◌, Bool-cases,
}
use sqlum_ai.Common.Text.{Text, nonempty, strip, strip_by, lstrip_by, rstrip_by, is_space}
use sqlum_ai.Tds.Sql.{split_loop}
use sqlum_ai.Tds.Sql.Rewrite.{double_quotes}

abbrev pub quote : ℕ
quote = b'\''

double_quote :
    (c : ℕ) (v : Text)
    → c == quote ≡ true
    → double_quotes (c ∷ v) ≡ quote ∷ (quote ∷ double_quotes v)
unfolding double_quotes
double_quote c v h = ground arith

double_other : (c : ℕ) (v : Text) → c == quote ≡ false → double_quotes (c ∷ v) ≡ c ∷ double_quotes v
unfolding double_quotes
double_other c v h = ground arith

step_quote :
    (s buf : Text) (in_q : Bool) (out : List Text)
    → split_loop (quote ∷ s) buf in_q out ≡ split_loop s (buf ++ quote ∷ []) (not in_q) out
unfolding split_loop
step_quote s buf in_q out = refl

-- a character that is no quote, inside quotes or no comma
pub step_other :
    (c : ℕ) (s buf : Text) (in_q : Bool) (out : List Text)
    → c == quote ≡ false
    → (c == b',' && not in_q) ≡ false
    → split_loop (c ∷ s) buf in_q out ≡ split_loop s (buf ++ c ∷ []) in_q out
unfolding split_loop
step_other c s buf in_q out h k = rw (h, k)

-- inside quotes the splitter passes over a text whose quotes are doubled
split_doubled :
    (v s buf : Text) (out : List Text)
    → split_loop (double_quotes v ++ s) buf true out
      ≡ split_loop s (buf ++ double_quotes v) true out
split_doubled [] s buf out = unfold double_quotes in rw append-nil
split_doubled (c ∷ v) s buf out = elim (Bool-cases (c == quote)) [
  | inl q ↦ rw (double_quote c v q) (
      step_quote (quote ∷ (double_quotes v ++ s)) buf true out
      ∙ (step_quote (double_quotes v ++ s) (buf ++ quote ∷ []) false out
          ∙ (split_doubled v s ((buf ++ quote ∷ []) ++ quote ∷ []) out
              ∙ ap (λ b. split_loop s b true out)
                  (append_assoc (buf ++ quote ∷ []) (quote ∷ []) (double_quotes v)
                    ∙ append_assoc buf (quote ∷ []) (quote ∷ double_quotes v)))))
  | inr other ↦ rw (double_other c v other) (
      step_other c (double_quotes v ++ s) buf true out other (ground arith)
      ∙ (split_doubled v s (buf ++ c ∷ []) out
          ∙ ap (λ b. split_loop s b true out) (append_assoc buf (c ∷ []) (double_quotes v))))
]

pub rstrip_cons :
    (d : ℕ) (s : Text)
    → nonempty (rstrip_by is_space s) ≡ true
    → rstrip_by is_space (d ∷ s) ≡ d ∷ rstrip_by is_space s
unfolding rstrip_by
rstrip_cons d s h = rw h

nonempty-append : (s : Text) (c : ℕ) → nonempty (s ++ c ∷ []) ≡ true
nonempty-append [] c = refl
nonempty-append (d ∷ s) c = refl

rstrip_solid :
    (s : Text) (c : ℕ) → is_space c ≡ false → rstrip_by is_space (s ++ c ∷ []) ≡ s ++ c ∷ []
rstrip_solid [] c h = unfold rstrip_by in rw h
rstrip_solid (d ∷ s) c h =
    let ih = rstrip_solid s c h in
    rstrip_cons d (s ++ c ∷ []) (ap nonempty ih ∙ nonempty-append s c) ∙ ap (λ t. d ∷ t) ih

-- A text that the splitter takes as one value: it leaves the quotes as it found them, and its ends
-- are no spaces.
pub record IsPiece (w : Text) : Type 0 where
  pub passed :
      (s buf : Text) (out : List Text)
      → split_loop (w ++ s) buf false out ≡ split_loop s (buf ++ w) false out
  pub stripped : strip w ≡ w
  pub stripped_behind_space : strip (b' ' ∷ w) ≡ w
  pub some_text : nonempty w ≡ true

strip_solid :
    (w s : Text) (c d : ℕ) (t : Text)
    → w ≡ c ∷ s
    → w ≡ t ++ d ∷ []
    → is_space c ≡ false
    → is_space d ≡ false
    → strip w ≡ w
unfolding strip strip_by
strip_solid w s c d t e e' hc hd =
    ap (rstrip_by is_space) lead ∙ (ap (rstrip_by is_space) e' ∙ (rstrip_solid t d hd ∙ sym e'))
  where
    lead : lstrip_by is_space w ≡ w
    lead = rw e (unfold lstrip_by in rw hc)

pub strip_space : (w : Text) → strip (b' ' ∷ w) ≡ strip w
unfolding strip strip_by lstrip_by is_space
strip_space w = refl

pub literal-IsPiece : (v : Text) → IsPiece (quote ∷ (double_quotes v ++ quote ∷ []))
literal-IsPiece v = record {
  passed = λ s buf out. passes s buf out;
  stripped = solid;
  stripped_behind_space = strip_space _ ∙ solid;
  some_text = refl;
}
  where
    solid :
        strip (quote ∷ (double_quotes v ++ quote ∷ [])) ≡ quote ∷ (double_quotes v ++ quote ∷ [])
    solid =
        strip_solid _ (double_quotes v ++ quote ∷ []) quote quote (quote ∷ double_quotes v) refl
          refl (unfold is_space in refl) (unfold is_space in refl)

    passes :
        (s buf : Text) (out : List Text)
        → split_loop ((quote ∷ (double_quotes v ++ quote ∷ [])) ++ s) buf false out
          ≡ split_loop s (buf ++ quote ∷ (double_quotes v ++ quote ∷ [])) false out
    passes s buf out =
        step_quote ((double_quotes v ++ quote ∷ []) ++ s) buf false out
        ∙ (ap (λ t. split_loop t (buf ++ quote ∷ []) true out)
              (append_assoc (double_quotes v) (quote ∷ []) s)
            ∙ (split_doubled v (quote ∷ s) (buf ++ quote ∷ []) out
                ∙ (step_quote s ((buf ++ quote ∷ []) ++ double_quotes v) true out
                    ∙ ap (λ b. split_loop s b false out)
                        (append_assoc (buf ++ quote ∷ []) (double_quotes v) (quote ∷ [])
                          ∙ append_assoc buf (quote ∷ []) (double_quotes v ++ quote ∷ [])))))
