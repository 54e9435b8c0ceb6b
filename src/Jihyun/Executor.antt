-- ===== src/Jihyun/Executor.antt =====
-- executor.c: statements against the schema files and the storage.
use jungle_week6_coding_sess.Prelude.{
  ℕ, suc, Bool, true, false, not, ◌||◌, Option, none, some, Bytes, List, [], ◌∷◌, ◌++◌, map, ◌==◌,
  if◌then◌else◌, length, replicate, get_or, set, codes,
}
use jungle_week6_coding_sess.Jihyun.Status.{
  SqlStatus, ok, invalid_query, column_value_count_mismatch, sql_status_message,
}
use jungle_week6_coding_sess.Jihyun.Action.{Outcome, done, fail}
use jungle_week6_coding_sess.Jihyun.Sql.Ast.{
  InsertStatement, SelectStatement, Statement, insert_stmt, select_stmt,
}
use jungle_week6_coding_sess.Jihyun.Schema.{
  SchemaColumn, TableSchema, schema_load, schema_find_column,
}
use jungle_week6_coding_sess.Jihyun.Cache.{Machine}
use jungle_week6_coding_sess.Jihyun.Storage.{RowVisitor, storage_insert_row, storage_scan_rows}

-- The directories of an execution context.
pub record ExecutionContext : Type 0 where
  pub schema_dir : Bytes
  pub data_dir : Bytes

-- The machine, what was written to the two streams, and `*did_error`.
pub record Session : Type 0 where
  pub machine : Machine
  pub output_stream : Bytes
  pub error_stream : Bytes
  pub did_error : Bool

-- `fprintf(stream, "ERROR: %s\n", sql_status_message(status))`
unfoldable pub error_line : SqlStatus → Bytes
error_line status = codes "ERROR: " ++ (sql_status_message status ++ (b'\n' ∷ []))

unfoldable pub write_error : SqlStatus → Bytes
write_error ok = []
write_error status = error_line status

-- `write_error(error_stream, status); *did_error = true;`
unfoldable pub report : SqlStatus → Session → Session
report status s = record s { error_stream = s.error_stream ++ write_error status; did_error = true }

-- The values so far, in the order of the schema, and which of them are assigned. A value that is
-- not assigned is NULL.
pub record Ordered : Type 0 where
  pub values : List (Option Bytes)
  pub assigned : List Bool

abbrev pub nothing_assigned : ℕ → Ordered
nothing_assigned n = record { values = replicate n none; assigned = replicate n false }

abbrev pub assign : ℕ → Bytes → Ordered → Ordered
assign index value o = record {
  values = set o.values index (some value);
  assigned = set o.assigned index true;
}

-- The loop of build_insert_values over the columns and values of the statement.
unfoldable pub assign_values :
    TableSchema → List Bytes → List Bytes → Ordered → Outcome (List (Option Bytes))
assign_values schema [] values o = done o.values
assign_values schema (column ∷ columns) [] o = done o.values
assign_values schema (column ∷ columns) (value ∷ values) o =
    elim (schema_find_column schema column) [
      | none ↦ fail invalid_query
      | some index ↦
          let later = assign_values schema columns values (assign index value o) in
          if get_or o.assigned index false then fail invalid_query else later
    ]

unfoldable pub build_insert_values : TableSchema → InsertStatement → Outcome (List (Option Bytes))
build_insert_values schema stmt =
    let columns = stmt.columns in
    if not (length columns == length stmt.values) || not (length columns == length schema.columns)
    then fail column_value_count_mismatch
    else assign_values schema columns stmt.values (nothing_assigned (length schema.columns))

-- index, index + 1, ...: `indexes[index] = (int)index`.
unfoldable pub indexes_from : ℕ → List SchemaColumn → List ℕ
indexes_from index [] = []
indexes_from index (_ ∷ columns) = index ∷ indexes_from (suc index) columns

-- The second loop of build_select_columns, with the indexes so far.
unfoldable pub find_columns : TableSchema → List Bytes → List ℕ → Outcome (List ℕ)
find_columns schema [] indexes = done indexes
find_columns schema (column ∷ columns) indexes = elim (schema_find_column schema column) [
  | none ↦ fail invalid_query
  | some index ↦ find_columns schema columns (indexes ++ index ∷ [])
]

unfoldable pub build_select_columns : TableSchema → SelectStatement → Outcome (List ℕ)
build_select_columns schema stmt =
    if stmt.select_all
    then done (indexes_from 0 schema.columns)
    else find_columns schema stmt.columns []

-- A loop of print_selected_row: the fields with `,` between them.
unfoldable pub join_fields : List Bytes → Bytes
join_fields [] = []
join_fields (field ∷ []) = field
join_fields (field ∷ next ∷ fields) = field ++ (b',' ∷ join_fields (next ∷ fields))

unfoldable pub print_line : List Bytes → Bytes
print_line fields = join_fields fields ++ (b'\n' ∷ [])

-- The mutable part of the SelectPrinterContext, with its output stream.
pub record Printer : Type 0 where
  pub header_written : Bool
  pub written : Bytes

unfoldable pub column_name_at : TableSchema → ℕ → Bytes
column_name_at schema index = get_or (map (λ c. c.name) schema.columns) index []

-- A value that the row lacks, which the code reads out of bounds, is printed as nothing here.
unfoldable pub print_selected_row : TableSchema → List ℕ → RowVisitor Printer
print_selected_row schema column_indexes row printer =
    let header = print_line (map (column_name_at schema) column_indexes) in
    let headed =
      if not printer.header_written then printer.written ++ header else printer.written in
    let line = print_line (map (λ index. get_or row index []) column_indexes) in
    (true, record { header_written = true; written = headed ++ line })

abbrev pub or_null : Option Bytes → Bytes
or_null none = []
or_null (some value) = value

-- The insertion of the ordered values, and its status.
unfoldable pub insert_ordered :
    ExecutionContext → TableSchema → List (Option Bytes) → Session → SqlStatus × Session
insert_ordered context schema values s =
    let (result, m) = storage_insert_row context.data_dir schema (map or_null values) s.machine in
    let inserted = record s { machine = m } in
    elim result [ done _ ↦ (ok, inserted) | fail e ↦ (e, report e inserted) ]

unfoldable pub execute_insert : ExecutionContext → InsertStatement → Session → SqlStatus × Session
execute_insert context stmt s =
    elim (schema_load s.machine.disk context.schema_dir stmt.table_name) [
      | fail e ↦ (e, report e s)
      | done schema ↦ elim (build_insert_values schema stmt) [
        | fail e ↦ (e, report e s)
        | done values ↦ insert_ordered context schema values s
      ]
    ]

-- The scan that prints the rows, and its status.
unfoldable pub print_rows : ExecutionContext → TableSchema → List ℕ → Session → SqlStatus × Session
print_rows context schema indexes s =
    let printer : Printer = record { header_written = false; written = s.output_stream } in
    let (status, printed, m) =
      storage_scan_rows (print_selected_row schema indexes) context.data_dir schema printer
        s.machine in
    let scanned = record s { machine = m; output_stream = printed.written } in
    elim status [ ok ↦ (ok, scanned) | e ↦ (e, report e scanned) ]

unfoldable pub execute_select : ExecutionContext → SelectStatement → Session → SqlStatus × Session
execute_select context stmt s =
    elim (schema_load s.machine.disk context.schema_dir stmt.table_name) [
      | fail e ↦ (e, report e s)
      | done schema ↦ elim (build_select_columns schema stmt) [
        | fail e ↦ (e, report e s)
        | done indexes ↦ print_rows context schema indexes s
      ]
    ]

unfoldable pub execute_statement : ExecutionContext → Statement → Session → SqlStatus × Session
execute_statement context (insert_stmt stmt) = execute_insert context stmt
execute_statement context (select_stmt stmt) = execute_select context stmt
