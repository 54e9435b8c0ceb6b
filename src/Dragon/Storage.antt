-- ===== src/Dragon/Storage.antt =====
-- file_storage.c: a table as a file of rows.
pub mod Reload
use jungle_week6_coding_sess.Prelude.{
  ℕ, zero, suc, ◌+◌, Bool, true, false, not, ◌&&◌, ◌||◌, Option, none, some, Bytes, List, [], ◌∷◌,
  ◌++◌, ◌==◌, ltb, leb, if◌then◌else◌, length, get_or, map, maybe, codes, bytes_eq,
}
use jungle_week6_coding_sess.Libc.Text.{fgets_lines}
use jungle_week6_coding_sess.Libc.Disk.{
  Disk, FilePath, Opened, missing, denied, opened, open_read, open_append, open_write, append_bytes,
  c_string,
}
use jungle_week6_coding_sess.Dragon.Types.{
  ColumnDef, TableDef, ResultSet, ErrorCode, err_none, err_invalid_query, err_table_not_found,
  err_column_mismatch, err_file_open, Outcome, stopped, filled, StorageOps, max_rows,
}
use jungle_week6_coding_sess.Dragon.Rows.{write_encoded_row, parse_encoded_row}

-- The directory of the data files is that of getcwd.
pub record FileStore : Type 0 where
  pub tables : List TableDef
  pub data_dir : Bytes

-- find_table, and find_table_def of executor.c.
unfoldable pub find_table : List TableDef → Bytes → Option TableDef
find_table [] name = none
find_table (table ∷ tables) name =
    let later = find_table tables name in if bytes_eq table.name name then some table else later

unfoldable pub find_column_from : ℕ → List ColumnDef → Bytes → Option ℕ
find_column_from i [] name = none
find_column_from i (column ∷ columns) name =
    let later = find_column_from (suc i) columns name in
    if bytes_eq column.name name then some i else later

-- find_column_index, and find_column_index_in_table of executor.c.
unfoldable pub find_column_index : TableDef → Bytes → Option ℕ
find_column_index table name = find_column_from 0 table.columns name

unfoldable pub build_table_path : FileStore → Bytes → Option FilePath
build_table_path store table_name =
    let path = store.data_dir ++ (codes "/" ++ (table_name ++ codes ".data")) in
    if ltb (length path) 1024 then some path else none

abbrev pub column_names : List ColumnDef → List Bytes
column_names [] = []
column_names (column ∷ columns) = column.name ∷ column_names columns

unfoldable pub set_full_headers : TableDef → ResultSet
set_full_headers table = record { headers = column_names table.columns; rows = [] }

-- The loop over the lines, with the number of rows so far.
unfoldable pub load_lines : TableDef → ℕ → List Bytes → Outcome (List (List Bytes))
load_lines table row_count [] = filled []
load_lines table row_count (line ∷ lines) =
    let rest = load_lines table (row_count + 1) lines in
    if leb max_rows row_count
    then stopped err_invalid_query
    else elim (parse_encoded_row (c_string line) (length table.columns)) [
      | none ↦ stopped err_file_open
      | some row ↦ elim rest [ stopped e ↦ stopped e | filled rows ↦ filled (row ∷ rows) ]
    ]

unfoldable pub load_opened : TableDef → Opened → Outcome ResultSet
load_opened table missing = filled (set_full_headers table)
load_opened table denied = stopped err_file_open
load_opened table (opened bytes) = elim (load_lines table 0 (fgets_lines 16384 bytes)) [
  | stopped e ↦ stopped e
  | filled rows ↦ filled (record { headers = column_names table.columns; rows = rows })
]

unfoldable pub load_full_table : FileStore → TableDef → Disk → Outcome ResultSet
load_full_table store table disk =
    maybe (build_table_path store table.name) (stopped err_file_open)
      (λ path. load_opened table (open_read disk path))

-- The indexes of the columns, or an error at the first that does not exist.
unfoldable pub column_indices : TableDef → List Bytes → Option (List ℕ)
column_indices table [] = some []
column_indices table (column ∷ columns) =
    maybe (find_column_index table column) none
      (λ i. maybe (column_indices table columns) none (λ indices. some (i ∷ indices)))

-- The values of a row at the indices.
unfoldable pub values_at : List ℕ → List Bytes → List Bytes
values_at [] row = []
values_at (i ∷ indices) row = get_or row i [] ∷ values_at indices row

unfoldable pub project_result_in_place :
    ResultSet → TableDef → List Bytes → Bool → Outcome ResultSet
project_result_in_place result table columns select_all =
    if select_all
    then filled result
    else maybe (column_indices table columns) (stopped err_invalid_query) (λ indices.
      filled (record { headers = columns; rows = map (values_at indices) result.rows }))

unfoldable pub file_insert : FileStore → Bytes → List Bytes → Disk → ErrorCode × Disk
file_insert store table_name values disk = elim (find_table store.tables table_name) [
  | none ↦ (err_table_not_found, disk)
  | some table ↦
      let written =
        maybe (build_table_path store table_name) (err_file_open, disk)
          (λ path.
            maybe (open_append disk path) (err_file_open, disk)
              (λ file. (err_none, append_bytes file path (write_encoded_row values)))) in
      if not (length values == length table.columns) then (err_column_mismatch, disk) else written
]

unfoldable pub file_read_all_rows : FileStore → Bytes → Disk → Outcome ResultSet
file_read_all_rows store table_name disk =
    maybe (find_table store.tables table_name) (stopped err_table_not_found)
      (λ table. load_full_table store table disk)

-- The rows, one after the other. A row of a result has a value for every column.
unfoldable pub encode_rows : List (List Bytes) → Bytes
encode_rows [] = []
encode_rows (row ∷ rows) = write_encoded_row row ++ encode_rows rows

unfoldable pub file_replace_rows : FileStore → Bytes → ResultSet → Disk → ErrorCode × Disk
file_replace_rows store table_name result disk = elim (find_table store.tables table_name) [
  | none ↦ (err_table_not_found, disk)
  | some table ↦
      let written =
        maybe (build_table_path store table_name) (err_file_open, disk)
          (λ path.
            maybe (open_write disk path) (err_file_open, disk)
              (λ file. (err_none, append_bytes file path (encode_rows result.rows)))) in
      if not (length result.headers == 0) && not (length result.headers == length table.columns)
      then (err_invalid_query, disk)
      else written
]

unfoldable pub file_select_rows : FileStore → Bytes → List Bytes → Bool → Disk → Outcome ResultSet
file_select_rows store table_name columns select_all disk =
    maybe (find_table store.tables table_name) (stopped err_table_not_found) (λ table.
      elim (load_full_table store table disk) [
        | stopped e ↦ stopped e
        | filled result ↦ project_result_in_place result table columns select_all
      ])

-- file_storage_create with file_init.
unfoldable pub file_storage_create : FileStore → StorageOps
file_storage_create store = record {
  insert = file_insert store;
  select_rows = file_select_rows store;
  read_all_rows = file_read_all_rows store;
  replace_rows = file_replace_rows store;
}
