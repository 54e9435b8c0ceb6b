-- ===== src/Dragon/Executor.antt =====
-- executor.c: the statements.
pub mod Delete
pub mod Update
pub mod Shown
pub mod Select
use jungle_week6_coding_sess.Prelude.{
  ℕ, zero, suc, Bool, true, false, not, ◌&&◌, ◌||◌, Option, none, some, Bytes, List, [], ◌∷◌, ◌++◌,
  ◌==◌, if◌then◌else◌, length, replicate, get_or, set, map, maybe, codes,
}
use jungle_week6_coding_sess.Libc.Disk.{Disk}
use jungle_week6_coding_sess.Dragon.Types.{
  CommandType, cmd_none, cmd_insert, cmd_select, cmd_delete, cmd_update, WhereCondition,
  OrderByClause, SetClause, TableDef, Command, ResultSet, ErrorCode, err_none, err_invalid_query,
  err_table_not_found, err_column_mismatch, err_file_open, Outcome, stopped, filled, StorageOps,
}
use jungle_week6_coding_sess.Dragon.Values.{row_matches_where}
use jungle_week6_coding_sess.Dragon.Rows.{line_feed}
use jungle_week6_coding_sess.Dragon.Storage.{find_table, find_column_index}
use jungle_week6_coding_sess.Dragon.Tables.{
  filter_rows_in_place, delete_rows_in_place, sort_rows_in_place, apply_limit_in_place,
  project_result_set, resolve_set_columns, set_values,
}

-- The files and the two streams.
pub record Process : Type 0 where
  pub disk : Disk
  pub output : Bytes
  pub errors : Bytes

abbrev pub error_text : ErrorCode → Bytes
error_text err_none = []
error_text err_table_not_found = codes "ERROR: table not found\n"
error_text err_column_mismatch = codes "ERROR: column count does not match value count\n"
error_text err_invalid_query = codes "ERROR: invalid query\n"
error_text err_file_open = codes "ERROR: file open failed\n"

abbrev pub is_success : ErrorCode → Bool
is_success err_none = true
is_success _ = false

-- Whether it returns 0.
unfoldable pub print_error : ErrorCode → Process → Bool × Process
print_error code s = (is_success code, record s { errors = s.errors ++ error_text code })

-- The values in the order of the schema, with the marks of the columns that have one.
unfoldable pub place_values :
    TableDef → List Bytes → List Bytes → List Bytes → List Bool → Option (List Bytes × List Bool)
place_values table (column ∷ columns) (value ∷ values) reordered seen =
    elim (find_column_index table column) [
      | none ↦ none
      | some i ↦
          let rest = place_values table columns values (set reordered i value) (set seen i true) in
          if get_or seen i false then none else rest
    ]
place_values table _ _ reordered seen = some (reordered, seen)

unfoldable pub all_seen : List Bool → Bool
all_seen [] = true
all_seen (mark ∷ marks) = if not mark then false else all_seen marks

unfoldable pub reorder_insert_values : Command → TableDef → Outcome (List Bytes)
reorder_insert_values cmd table =
    let count = length table.columns in
    let placed =
      maybe
        (place_values table cmd.insert_columns cmd.values (replicate count [])
          (replicate count false))
        (stopped err_invalid_query)
        (λ (reordered, seen).
          if all_seen seen then filled reordered else stopped err_invalid_query) in
    if not (length cmd.insert_columns == length cmd.values)
      || not (length cmd.insert_columns == count)
    then stopped err_column_mismatch
    else placed

-- resolve_where_column: `none` without a clause, its index with one.
unfoldable pub resolve_where_column :
    TableDef → Option WhereCondition → Outcome (Option (ℕ × WhereCondition))
resolve_where_column table none = filled none
resolve_where_column table (some condition) =
    maybe (find_column_index table condition.column) (stopped err_invalid_query)
      (λ i. filled (some (i, condition)))

unfoldable pub resolve_order_by_column :
    TableDef → Option OrderByClause → Outcome (Option (ℕ × OrderByClause))
resolve_order_by_column table none = filled none
resolve_order_by_column table (some order) =
    maybe (find_column_index table order.column) (stopped err_invalid_query)
      (λ i. filled (some (i, order)))

-- Texts with a comma before all but the first, and a line feed.
unfoldable pub print_line : List Bytes → Bytes
print_line [] = line_feed ∷ []
print_line (text ∷ []) = text ++ line_feed ∷ []
print_line (text ∷ next ∷ texts) = text ++ (b',' ∷ print_line (next ∷ texts))

unfoldable pub print_lines : List (List Bytes) → Bytes
print_lines [] = []
print_lines (row ∷ rows) = print_line row ++ print_lines rows

unfoldable pub print_result_set : ResultSet → Bytes
print_result_set result = elim result.rows [
  | [] ↦ []
  | row ∷ rows ↦ print_line result.headers ++ print_lines (row ∷ rows)
]

-- The rows behind WHERE, ORDER BY and LIMIT.
unfoldable pub selected_rows :
    Option (ℕ × WhereCondition)
    → Option (ℕ × OrderByClause)
    → Option ℕ
    → List (List Bytes)
    → List (List Bytes)
selected_rows condition order limit rows =
    let matching = maybe condition rows (λ (i, c). filter_rows_in_place i c rows) in
    let sorted = maybe order matching (λ (i, o). sort_rows_in_place i o.direction matching) in
    maybe limit sorted (λ n. apply_limit_in_place n sorted)

abbrev pub and_then {ℓ κ} :
    {In : Type ℓ} {Out : Type κ} → Outcome In → (In → Outcome Out) → Outcome Out
and_then (stopped code) step = stopped code
and_then (filled found) step = step found

-- The result that is printed, or the error.
unfoldable pub select_result : Command → StorageOps → TableDef → Disk → Outcome ResultSet
select_result cmd ops table disk = and_then (ops.read_all_rows cmd.table_name disk) (λ result.
    and_then (resolve_where_column table cmd.where_condition) (λ condition.
      and_then (resolve_order_by_column table cmd.order_by) (λ order.
        project_result_set
          (record result { rows = selected_rows condition order cmd.limit_count result.rows }) table
          cmd)))

unfoldable pub execute_select : Command → StorageOps → TableDef → Process → Bool × Process
execute_select cmd ops table s = elim (select_result cmd ops table s.disk) [
  | stopped code ↦ print_error code s
  | filled result ↦ (true, record s { output = s.output ++ print_result_set result })
]

-- The rows that a DELETE leaves.
unfoldable pub rows_left : Option (ℕ × WhereCondition) → List (List Bytes) → List (List Bytes)
rows_left none rows = []
rows_left (some (i, condition)) rows = delete_rows_in_place i condition rows

-- replace_rows and its message.
unfoldable pub replace : Command → StorageOps → ResultSet → Process → Bool × Process
replace cmd ops result s =
    let (code, disk) = ops.replace_rows cmd.table_name result s.disk in
    print_error code (record s { disk = disk })

unfoldable pub delete_result : Command → StorageOps → TableDef → Disk → Outcome ResultSet
delete_result cmd ops table disk = and_then (ops.read_all_rows cmd.table_name disk) (λ result.
    and_then (resolve_where_column table cmd.where_condition)
      (λ condition. filled (record result { rows = rows_left condition result.rows })))

unfoldable pub execute_delete : Command → StorageOps → TableDef → Process → Bool × Process
execute_delete cmd ops table s = elim (delete_result cmd ops table s.disk) [
  | stopped code ↦ print_error code s
  | filled result ↦ replace cmd ops result s
]

-- A row behind an UPDATE.
unfoldable pub updated_row :
    Option (ℕ × WhereCondition) → List ℕ → List SetClause → List Bytes → List Bytes
updated_row condition indices clauses row =
    if maybe condition true (λ (i, c). row_matches_where i c row)
    then set_values indices clauses row
    else row

unfoldable pub update_result : Command → StorageOps → TableDef → Disk → Outcome ResultSet
update_result cmd ops table disk = and_then (ops.read_all_rows cmd.table_name disk) (λ result.
    and_then (resolve_where_column table cmd.where_condition) (λ condition.
      maybe (resolve_set_columns table (replicate (length table.columns) false) cmd.set_clauses)
        (stopped err_invalid_query)
        (λ indices. filled (record result {
          rows = map (updated_row condition indices cmd.set_clauses) result.rows;
        }))))

unfoldable pub execute_update : Command → StorageOps → TableDef → Process → Bool × Process
execute_update cmd ops table s = elim (update_result cmd ops table s.disk) [
  | stopped code ↦ print_error code s
  | filled result ↦ replace cmd ops result s
]

unfoldable pub execute_insert : Command → StorageOps → TableDef → Process → Bool × Process
execute_insert cmd ops table s = elim (reorder_insert_values cmd table) [
  | stopped code ↦ print_error code s
  | filled values ↦
      let (code, disk) = ops.insert cmd.table_name values s.disk in
      print_error code (record s { disk = disk })
]

-- Whether it returns 0.
unfoldable pub execute_command : Command → StorageOps → List TableDef → Process → Bool × Process
execute_command cmd ops tables s =
    let on_table = λ (run : TableDef → Bool × Process).
      maybe (find_table tables cmd.table_name) (print_error err_table_not_found s) run in
    elim cmd.type [
      | cmd_none ↦ (true, s)
      | cmd_insert ↦ on_table (λ table. execute_insert cmd ops table s)
      | cmd_select ↦ on_table (λ table. execute_select cmd ops table s)
      | cmd_delete ↦ on_table (λ table. execute_delete cmd ops table s)
      | cmd_update ↦ on_table (λ table. execute_update cmd ops table s)
    ]
