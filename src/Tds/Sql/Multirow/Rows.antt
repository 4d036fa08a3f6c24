-- ===== src/Tds/Sql/Multirow/Rows.antt =====
-- Rows that `reconstruct_multirow_insert` has written, scanned again.
use sqlum_ai.Common.{
  ◌==◌, ◌≡◌, refl, sym, ap, ap₂, ◌∙◌, false, List, [], ◌∷◌, ◌++◌, map, append_assoc, append-nil,
  All, All-append, Bool-cases, inl, inr,
}
use sqlum_ai.Common.Text.{Text, codes, join}
use sqlum_ai.Tds.Sql.{unquote}
use sqlum_ai.Tds.Sql.Rewrite.{double_quotes, is_number, encode_value}
use sqlum_ai.Tds.Sql.Rewrite.Numbers.{NoNewline}
use sqlum_ai.Tds.Sql.Rewrite.ReadBack.{reread, split_csv-join, unquote-encode_value}
use sqlum_ai.Tds.Sql.Multirow.{level, row_of, scan_rows, row_text}

abbrev pub NoParen : Text → Type 0
NoParen = All (λ c. (c == b'(' ≡ false) × (c == b')' ≡ false))

-- inside a row a text without parentheses is kept
scan_plain :
    (w s buf : Text) (rows : List (List Text))
    → NoParen w
    → scan_rows (w ++ s) (level 1) buf rows ≡ scan_rows s (level 1) (buf ++ w) rows
scan_plain [] s buf rows h = ap (λ b. scan_rows s (level 1) b rows) (sym (append-nil buf))
scan_plain (c ∷ w) s buf rows ((o, k), h) =
    one_step
    ∙ (scan_plain w s (buf ++ c ∷ []) rows h
        ∙ ap (λ b. scan_rows s (level 1) b rows) (append_assoc buf (c ∷ []) w))
  where
    one_step :
        scan_rows (c ∷ (w ++ s)) (level 1) buf rows
        ≡ scan_rows (w ++ s) (level 1) (buf ++ c ∷ []) rows
    one_step = unfold scan_rows in rw (o, k)

scan_open :
    (s buf : Text) (rows : List (List Text))
    → scan_rows (b'(' ∷ s) (level 0) buf rows ≡ scan_rows s (level 1) [] rows
unfolding scan_rows
scan_open s buf rows = refl

scan_close :
    (s buf : Text) (rows : List (List Text))
    → scan_rows (b')' ∷ s) (level 1) buf rows ≡ scan_rows s (level 0) [] (rows ++ row_of buf ∷ [])
unfolding scan_rows
scan_close s buf rows = refl

scan_separator :
    (s buf : Text) (rows : List (List Text))
    → scan_rows (codes ", " ++ s) (level 0) buf rows ≡ scan_rows s (level 0) buf rows
unfolding scan_rows
scan_separator s buf rows = refl

double_quotes-NoParen : (v : Text) → NoParen v → NoParen (double_quotes v)
unfolding double_quotes
double_quotes-NoParen [] h = tt
double_quotes-NoParen (c ∷ v) (hc, h) = elim (Bool-cases (c == b'\'')) [
  | inl q ↦ rw (double_quotes, q) (hc, (hc, double_quotes-NoParen v h))
  | inr o ↦ rw (double_quotes, o) (hc, double_quotes-NoParen v h)
]

encode_value-NoParen : (v : Text) → NoParen v → NoParen (encode_value v)
unfolding encode_value
encode_value-NoParen v h = elim (Bool-cases (is_number v)) [
  | inl num ↦ rw num h
  | inr other ↦ rw other (
    (refl, refl),
    All-append _ (double_quotes v) (b'\'' ∷ []) (double_quotes-NoParen v h) ((refl, refl), tt),
  )
]

join-NoParen : (vs : List Text) → All NoParen vs → NoParen (join (codes ", ") (map encode_value vs))
unfolding join
join-NoParen [] h = tt
join-NoParen (v ∷ []) (hv, h) = encode_value-NoParen v hv
join-NoParen (v ∷ (w ∷ vs)) (hv, h) =
    All-append _ (encode_value v) _ (encode_value-NoParen v hv)
      ((refl, refl), ((refl, refl), join-NoParen (w ∷ vs) h))

scan_row :
    (row : List Text) (s buf : Text) (rows : List (List Text))
    → All NoParen row
    → scan_rows (row_text row ++ s) (level 0) buf rows
      ≡ scan_rows s (level 0) [] (rows ++ row_of (join (codes ", ") (map encode_value row)) ∷ [])
unfolding row_text
scan_row row s buf rows h =
    let w : Text = join (codes ", ") (map encode_value row) in
    scan_open ((w ++ codes ")") ++ s) buf rows
    ∙ (ap (λ t. scan_rows t (level 1) [] rows) (append_assoc w (codes ")") s)
        ∙ (scan_plain w (codes ")" ++ s) [] rows (join-NoParen row h) ∙ scan_close s w rows))

unquoted :
    (row : List Text) → All NoNewline row → map unquote (map encode_value row) ≡ map reread row
unquoted [] h = refl
unquoted (v ∷ row) (hv, h) = ap₂ (λ x xs. x ∷ xs) (unquote-encode_value v hv) (unquoted row h)

row_of-join :
    (row : List Text)
    → All NoNewline row
    → row_of (join (codes ", ") (map encode_value row)) ≡ map reread row
unfolding row_of
row_of-join row h = ap (map unquote) (split_csv-join row h) ∙ unquoted row h

abbrev pub Rereadable : List Text → Type 0
Rereadable row = All NoParen row × All NoNewline row

scan_end : (buf : Text) (rows : List (List Text)) → scan_rows [] (level 0) buf rows ≡ rows
unfolding scan_rows
scan_end buf rows = refl

scan-All :
    (row : List Text) (more rows : List (List Text))
    → Rereadable row
    → All Rereadable more
    → scan_rows (join (codes ", ") (map row_text (row ∷ more))) (level 0) [] rows
      ≡ rows ++ map (map reread) (row ∷ more)
unfolding join
scan-All row [] rows (p, n) h =
    ap (λ t. scan_rows t (level 0) [] rows) (sym (append-nil (row_text row)))
    ∙ (scan_row row [] [] rows p
        ∙ (scan_end [] (rows ++ row_of (join (codes ", ") (map encode_value row)) ∷ [])
            ∙ ap (λ r. rows ++ r ∷ []) (row_of-join row n)))
scan-All row (next ∷ more) rows (p, n) (hn, h) =
    let tail : Text = join (codes ", ") (map row_text (next ∷ more)) in
    scan_row row (codes ", " ++ tail) [] rows p
    ∙ (scan_separator tail [] _
        ∙ (ap (λ r. scan_rows tail (level 0) [] (rows ++ r ∷ [])) (row_of-join row n)
            ∙ (scan-All next more (rows ++ map reread row ∷ []) hn h
                ∙ append_assoc rows (map reread row ∷ []) (map (map reread) (next ∷ more)))))

-- Rows that were written as the tuples of an INSERT are scanned into as many rows of as many cells,
-- each cell as a single value would be read back (cells without parentheses and newlines).
pub scan_rows-row_text :
    (row : List Text) (more : List (List Text))
    → Rereadable row
    → All Rereadable more
    → scan_rows (join (codes ", ") (map row_text (row ∷ more))) (level 0) [] []
      ≡ map (map reread) (row ∷ more)
scan_rows-row_text row more h hs = scan-All row more [] h hs
