-- ===== src/Tests/SqlWitnesses.antt =====
-- The theorems on src/tds/sqlparse_simple.py at concrete statements and values.
use sqlum_ai.Common.{◌≡◌, refl, List, [], ◌∷◌, map, arith}
use sqlum_ai.Common.Text.{Text, codes, join}
use sqlum_ai.Common.Regex.{up_to_paren}
use sqlum_ai.Tds.Sql.{split_csv_respecting_quotes, unquote}
use sqlum_ai.Tds.Sql.Rewrite.{encode_value, insert_prefix, insert_suffix, reconstruct_insert}
use sqlum_ai.Tds.Sql.Rewrite.Kept.{Rewrites, reconstruct_insert-Rewrites}
use sqlum_ai.Tds.Sql.Rewrite.ReadBack.{reread, split_csv-join, unquote-encode_value}
use sqlum_ai.Tds.Sql.Multirow.{level, scan_rows, row_text}
use sqlum_ai.Tds.Sql.Multirow.Rows.{scan_rows-row_text}

reconstruct_insert-Rewrites_example :
    Rewrites insert_prefix up_to_paren insert_suffix
      (codes "insert into T (a) values (7);")
      (join (codes ", ") (map encode_value (codes "z" ∷ [])))
      (codes "insert into T (a) values ('z');")
reconstruct_insert-Rewrites_example =
    reconstruct_insert-Rewrites (codes "insert into T (a) values (7);")
      (codes "insert into T (a) values ('z');") (codes "z" ∷ []) (unfold reconstruct_insert in refl)

abbrev two_values : List Text
two_values = codes "O'B, C" ∷ codes "-2.5" ∷ []

split_csv-join_example :
    split_csv_respecting_quotes (join (codes ", ") (map encode_value two_values))
    ≡ map encode_value two_values
split_csv-join_example = split_csv-join two_values (ground arith)

unquote-encode_value_example : unquote (encode_value (codes "O'B")) ≡ reread (codes "O'B")
unquote-encode_value_example = unquote-encode_value (codes "O'B") (ground arith)

scan_rows-row_text_example :
    scan_rows
      (join (codes ", ") (map row_text (two_values ∷ (codes "7" ∷ []) ∷ [])))
      (level 0)
      []
      []
    ≡ map (map reread) (two_values ∷ (codes "7" ∷ []) ∷ [])
scan_rows-row_text_example =
    scan_rows-row_text two_values ((codes "7" ∷ []) ∷ []) (ground arith) (ground arith)
