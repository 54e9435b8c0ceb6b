-- ===== src/Dragon/Executor/Delete.antt =====
-- DELETE on the file of a table.
use jungle_week6_coding_sess.Prelude.{ℕ, Bool, true, Bytes, List, Option, some, none}
use jungle_week6_coding_sess.Dragon.Types.{WhereCondition, TableDef, ResultSet}
use jungle_week6_coding_sess.Dragon.Storage.{column_names}
use jungle_week6_coding_sess.Dragon.Values.{row_matches_where}

-- Whether a statement with this condition is for the row: each is if it has no condition.
unfoldable pub is_affected : Option (ℕ × WhereCondition) → List Bytes → Bool
is_affected none row = true
is_affected (some (i, condition)) row = row_matches_where i condition row

-- The table as it is read, with these rows.
abbrev pub whole : TableDef → List (List Bytes) → ResultSet
whole table rows = record { headers = column_names table.columns; rows = rows }
