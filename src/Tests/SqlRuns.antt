-- ===== src/Tests/SqlRuns.antt =====
-- Runs of src/tds/sqlparse_simple.py.
use sqlum_ai.Common.{◌≡◌, refl, false, some, [], ◌∷◌}
use sqlum_ai.Common.Text.{codes}
use sqlum_ai.Tds.Sql.{extract_table_and_columns, extract_values}
use sqlum_ai.Tds.Sql.Detect.{detect_bulk_insert, detect_merge, extract_select_info}
use sqlum_ai.Tds.Sql.Multirow.{extract_multirow_values}
use sqlum_ai.Tds.Sql.Rewrite.{reconstruct_insert, reconstruct_update}

table_of_insert :
    extract_table_and_columns (codes "insert INTO dbo.T ([a], b) VALUES (1,2)")
    ≡ (some (codes "dbo.T"), codes "a" ∷ codes "b" ∷ [])
unfolding extract_table_and_columns
table_of_insert = refl

values_of_insert :
    extract_values (codes "insert into T (a, b) values ('x, y', 2)") ≡ codes "x, y" ∷ codes "2" ∷ []
unfolding extract_values
values_of_insert = refl

values_of_update :
    extract_values (codes "update T set a = 'x', b=2 where c = 3") ≡ codes "x" ∷ codes "2" ∷ []
unfolding extract_values
values_of_update = refl

rewritten_insert :
    reconstruct_insert
      (codes "insert into T (a, b) values (7,8);")
      (codes "O'B" ∷ codes "-2.5" ∷ [])
    ≡ some (codes "insert into T (a, b) values ('O''B', -2.5);")
unfolding reconstruct_insert
rewritten_insert = refl

rewritten_update :
    reconstruct_update (codes "update T set a=1 where b=2") (codes "a" ∷ []) (codes "z" ∷ [])
    ≡ some (codes "update T set a = 'z' where b=2")
unfolding reconstruct_update
rewritten_update = refl

rows_of_insert :
    extract_multirow_values (codes "INSERT INTO T (a,b) VALUES (1,'x'), (2, 'y')")
    ≡ some ((codes "1" ∷ codes "x" ∷ []) ∷ (codes "2" ∷ codes "y" ∷ []) ∷ [])
unfolding extract_multirow_values
rows_of_insert = refl

merge_columns :
    detect_merge (
      codes
        "MERGE INTO [dbo].[T] AS t USING s ON 1=1 WHEN MATCHED THEN UPDATE SET t.a = 1, [b] = 2 ;")
    ≡ (some (codes "dbo.T"), codes "a" ∷ codes "b" ∷ [], [])
unfolding detect_merge
merge_columns = refl

select_columns :
    extract_select_info (codes "SELECT a, b FROM [dbo].[T] WHERE 1=1")
    ≡ (codes "dbo.T" ∷ [], codes "a" ∷ codes "b" ∷ [], false)
unfolding extract_select_info
select_columns = refl

bulk_path :
    detect_bulk_insert (codes "BULK INSERT dbo.C FROM 'c.csv' WITH (X)")
    ≡ (some (codes "dbo.C"), some (codes "c.csv"))
unfolding detect_bulk_insert
bulk_path = refl
