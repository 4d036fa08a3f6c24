-- ===== src/Tds/Sql/Rewrite/ReadBack.antt =====
-- The values of a rewritten statement, read back by the program's own splitter.
use sqlum_ai.Common.{
  ℕ, ◌≡◌, inl, inr, refl, sym, ap, ◌∙◌, Bool, true, false, List, [], ◌∷◌, ◌++◌, map, append_assoc,
  append-nil, All, if◌then◌else◌, Bool-cases,
}
use sqlum_ai.Common.Text.{Text, codes, join, nonempty, strip}
use sqlum_ai.Tds.Sql.{split_loop, split_csv_respecting_quotes, unquote, drop_last, ends_with_quote}
use sqlum_ai.Tds.Sql.Rewrite.{double_quotes, is_number, encode_value}
use sqlum_ai.Tds.Sql.Rewrite.Literals.{quote, IsPiece}
use sqlum_ai.Tds.Sql.Rewrite.Numbers.{
  IsNumeric, numeric_plain, NoNewline, number_chars, encode_value-IsPiece,
}

drop_last-append : (s : Text) (c : ℕ) → drop_last (s ++ c ∷ []) ≡ s
unfolding drop_last
drop_last-append [] c = refl
drop_last-append (d ∷ []) c = refl
drop_last-append (d ∷ (e ∷ s)) c = ap (λ t. d ∷ t) (drop_last-append (e ∷ s) c)

ends_with_quote-append : (s : Text) → ends_with_quote (s ++ quote ∷ []) ≡ true
unfolding ends_with_quote
ends_with_quote-append [] = refl
ends_with_quote-append (d ∷ []) = refl
ends_with_quote-append (d ∷ (e ∷ s)) = ends_with_quote-append (e ∷ s)

-- how the buffer stands in front of a piece: empty at first, then with the space of the separator
abbrev lead_in : Bool → Text
lead_in false = []
lead_in true = b' ' ∷ []

strip-lead_in : (spaced : Bool) (w : Text) → IsPiece w → strip (lead_in spaced ++ w) ≡ w
strip-lead_in false w p = p.stripped
strip-lead_in true w p = p.stripped_behind_space

split_end :
    (buf : Text) (out : List Text)
    → nonempty buf ≡ true
    → split_loop [] buf false out ≡ out ++ strip buf ∷ []
unfolding split_loop
split_end buf out h = rw h

nonempty_behind :
    (spaced : Bool) (w : Text) → nonempty w ≡ true → nonempty (lead_in spaced ++ w) ≡ true
nonempty_behind false w h = h
nonempty_behind true w h = refl

split_separator :
    (s buf : Text) (out : List Text)
    → split_loop (codes ", " ++ s) buf false out
      ≡ split_loop s (lead_in true) false (out ++ strip buf ∷ [])
unfolding split_loop
split_separator s buf out = refl

split_pieces :
    (spaced : Bool) (w : Text) (ws : List Text) (out : List Text)
    → IsPiece w
    → All IsPiece ws
    → split_loop (join (codes ", ") (w ∷ ws)) (lead_in spaced) false out ≡ out ++ w ∷ ws
unfolding join
split_pieces spaced w [] out p ps =
    ap (λ t. split_loop t (lead_in spaced) false out) (sym (append-nil w))
    ∙ (p.passed [] (lead_in spaced) out
        ∙ (split_end (lead_in spaced ++ w) out (nonempty_behind spaced w p.some_text)
            ∙ ap (λ t. out ++ t ∷ []) (strip-lead_in spaced w p)))
split_pieces spaced w (x ∷ ws) out p (q, ps) =
    p.passed (codes ", " ++ join (codes ", ") (x ∷ ws)) (lead_in spaced) out
    ∙ (split_separator (join (codes ", ") (x ∷ ws)) (lead_in spaced ++ w) out
        ∙ (ap (λ t. split_loop (join (codes ", ") (x ∷ ws)) (lead_in true) false (out ++ t ∷ []))
              (strip-lead_in spaced w p)
            ∙ (split_pieces true x ws (out ++ w ∷ []) q ps ∙ append_assoc out (w ∷ []) (x ∷ ws))))

pieces : (vs : List Text) → All NoNewline vs → All IsPiece (map encode_value vs)
pieces [] h = tt
pieces (v ∷ vs) (hv, h) = (encode_value-IsPiece v hv, pieces vs h)

-- The encoded values, joined as a rewritten statement joins them, are split by the program into the
-- same encoded values, whatever quotes, commas and spaces the values hold (values without a
-- newline).
pub split_csv-join :
    (vs : List Text)
    → All NoNewline vs
    → split_csv_respecting_quotes (join (codes ", ") (map encode_value vs)) ≡ map encode_value vs
unfolding split_csv_respecting_quotes
split_csv-join [] h = unfold join split_loop in refl
split_csv-join (v ∷ vs) (hv, h) =
    split_pieces false (encode_value v) (map encode_value vs) [] (encode_value-IsPiece v hv)
      (pieces vs h)

-- What the program reads where it has written the value `v`.
abbrev pub reread : Text → Text
reread v = if is_number v then v else double_quotes v

unquote_literal : (v : Text) → unquote (quote ∷ (v ++ quote ∷ [])) ≡ v
unfolding unquote
unquote_literal v = rw (ends_with_quote-append (quote ∷ v), drop_last-append v quote)

unquote_numeric : (v : Text) → All IsNumeric v → unquote v ≡ v
unfolding unquote
unquote_numeric [] h = refl
unquote_numeric (c ∷ v) (hc, h) = let (q, _, _) = numeric_plain c hc in rw q

-- A written value without a newline is read back as it was if it is a number, and otherwise with every quote doubled:
-- the doubling is not undone.
pub unquote-encode_value : (v : Text) → NoNewline v → unquote (encode_value v) ≡ reread v
unfolding encode_value
unquote-encode_value v line = elim (Bool-cases (is_number v)) [
  | inl num ↦ let (chars, _) = number_chars v num line in rw num (unquote_numeric v chars)
  | inr other ↦ rw other (unquote_literal (double_quotes v))
]
