-- ===== src/Dragon/Executor/Select.antt =====
-- SELECT on the file of a table.
use mathlib.Core.List.{Permᴰ}
use jungle_week6_coding_sess.Prelude.{
  ℕ, ◌≡◌, refl, sym, ap, ◌∙◌, true, Bytes, List, [], ◌∷◌, ◌++◌, Option, some, none, maybe, take,
  take_all, All, Bool-cases, inl, inr, ltb, not_ltb→le, length,
}
use jungle_week6_coding_sess.Prelude.Spec.{only}
use jungle_week6_coding_sess.Dragon.Types.{WhereCondition, OrderByClause, TableDef, Command, filled}
use jungle_week6_coding_sess.Dragon.Values.{row_matches_where}
use jungle_week6_coding_sess.Dragon.Storage.{FileStore, file_storage_create, file_read_all_rows}
use jungle_week6_coding_sess.Dragon.Tables.{
  filter_rows_in_place, sort_rows_in_place, apply_limit_in_place,
}
use jungle_week6_coding_sess.Dragon.Tables.Sort.{
  Ordered, InOrder, IsInteger, sort_rows_in_place-Ordered,
}
use jungle_week6_coding_sess.Dragon.Executor.{
  Process, resolve_where_column, resolve_order_by_column, selected_rows, select_result,
  execute_select,
}
use jungle_week6_coding_sess.Dragon.Executor.Delete.{is_affected, whole}
use jungle_week6_coding_sess.Dragon.Executor.Shown.{
  SelectsColumns, table_text, print-project_result_set,
}

-- The values in the column of an ORDER BY are integers.
abbrev pub HasKeys : Option (ℕ × OrderByClause) → List (List Bytes) → Type 0
HasKeys none rows = Unit
HasKeys (some (i, order)) rows = All (IsInteger i) rows

-- The second rows are the first: without an ORDER BY as they are, and else in its order.
abbrev pub IsOrdered : Option (ℕ × OrderByClause) → List (List Bytes) → List (List Bytes) → Type 0
IsOrdered none rows ordered = ordered ≡ rows
IsOrdered (some (i, order)) rows ordered =
    Permᴰ rows ordered × Ordered (InOrder i order.direction) ordered

-- The rows within the limit.
abbrev pub limited : Option ℕ → List (List Bytes) → List (List Bytes)
limited none rows = rows
limited (some n) rows = take n rows

filter_rows_in_place-only :
    (i : ℕ) (condition : WhereCondition) (rows : List (List Bytes))
    → filter_rows_in_place i condition rows ≡ only (is_affected (some (i, condition))) rows
unfolding filter_rows_in_place only is_affected
filter_rows_in_place-only i condition [] = refl
filter_rows_in_place-only i condition (row ∷ rows) =
    let rest = filter_rows_in_place-only i condition rows in
    elim (Bool-cases (row_matches_where i condition row)) [
      | inl e ↦ rw e (ap (◌∷◌ row) rest)
      | inr e ↦ rw e rest
    ]

only_all : (rows : List (List Bytes)) → rows ≡ only (is_affected none) rows
unfolding only is_affected
only_all [] = refl
only_all (row ∷ rows) = ap (◌∷◌ row) (only_all rows)

matching-only :
    (condition : Option (ℕ × WhereCondition)) (rows : List (List Bytes))
    → maybe condition rows (λ (i, c). filter_rows_in_place i c rows)
      ≡ only (is_affected condition) rows
matching-only none rows = only_all rows
matching-only (some (i, condition)) rows = filter_rows_in_place-only i condition rows

sorted-IsOrdered :
    (order : Option (ℕ × OrderByClause)) (rows : List (List Bytes))
    → HasKeys order rows
    → IsOrdered order rows (maybe order rows (λ (i, o). sort_rows_in_place i o.direction rows))
sorted-IsOrdered none rows h = refl
sorted-IsOrdered (some (i, o)) rows h = sort_rows_in_place-Ordered i o.direction rows h

apply_limit-limited :
    (limit : Option ℕ) (rows : List (List Bytes))
    → maybe limit rows (λ n. apply_limit_in_place n rows) ≡ limited limit rows
unfolding apply_limit_in_place
apply_limit-limited none rows = refl
apply_limit-limited (some n) rows = elim (Bool-cases (ltb n (length rows))) [
  | inl e ↦ rw e refl
  | inr e ↦ rw e (sym (take_all n rows (not_ltb→le n (length rows) e)))
]

-- The rows behind WHERE, ORDER BY and LIMIT.
selected_rows-IsOrdered :
    (condition : Option (ℕ × WhereCondition)) (order : Option (ℕ × OrderByClause))
    (limit : Option ℕ) (rows : List (List Bytes))
    → HasKeys order (only (is_affected condition) rows)
    → (ordered : List (List Bytes)) × IsOrdered order (only (is_affected condition) rows) ordered
      × (selected_rows condition order limit rows ≡ limited limit ordered)
unfolding selected_rows
selected_rows-IsOrdered condition order limit rows h =
    let matching = only (is_affected condition) rows in
    let ordered = maybe order matching (λ (i, o). sort_rows_in_place i o.direction matching) in
    (
      ordered,
      sorted-IsOrdered order matching h,
      ap
            (λ kept.
              let sorted = maybe order kept (λ (i, o). sort_rows_in_place i o.direction kept) in
              maybe limit sorted (λ n. apply_limit_in_place n sorted))
            (matching-only condition rows)
          ∙ apply_limit-limited limit ordered,
    )

-- On a table that is read as some rows, a SELECT of columns of the table whose WHERE and ORDER BY
-- columns exist, and whose ORDER BY column holds integers in the rows that match, succeeds, prints
-- no error and changes no file. It prints the names of its columns and, for each row, its values
-- for these names, or nothing if there is no row; the rows are those that match the condition, in
-- their order or in the order of the ORDER BY, up to the limit.
pub execute_select-only_matching :
    (store : FileStore) (cmd : Command) (table : TableDef) (condition : Option (ℕ × WhereCondition))
    (order : Option (ℕ × OrderByClause)) (rows : List (List Bytes)) (s : Process)
    → file_read_all_rows store cmd.table_name s.disk ≡ filled (whole table rows)
    → resolve_where_column table cmd.where_condition ≡ filled condition
    → resolve_order_by_column table cmd.order_by ≡ filled order
    → HasKeys order (only (is_affected condition) rows)
    → SelectsColumns cmd table
    → (ordered : List (List Bytes)) × IsOrdered order (only (is_affected condition) rows) ordered
      × (execute_select cmd (file_storage_create store) table s ≡ (
        true,
        record s { output = s.output ++ table_text cmd table (limited cmd.limit_count ordered) },
      ))
unfolding execute_select select_result file_storage_create
execute_select-only_matching store cmd table condition order rows s holds resolved resolved_order
      keys selects =
    let (ordered, is_ordered, selected) =
      selected_rows-IsOrdered condition order cmd.limit_count rows keys in
    let (shown, projected, printed) =
      print-project_result_set cmd table
        (record (whole table rows) { rows = limited cmd.limit_count ordered }) selects in
    (
      ordered,
      is_ordered,
      rw (execute_select, select_result, holds, resolved, resolved_order, selected, projected)
          (λ i. (true, record s { output = s.output ++ printed i })),
    )
