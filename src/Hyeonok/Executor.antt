-- ===== src/Hyeonok/Executor.antt =====
-- executor.c. What is printed to stdout is a part of the results.
pub mod Columns
pub mod Errors
pub mod Fills
pub mod Order
pub mod Select
pub mod Insert
use jungle_week6_coding_sess.Prelude.{
  ℕ, zero, suc, Bool, true, false, not, ◌&&◌, ◌||◌, Option, none, some, Bytes, List, [], ◌∷◌, ◌++◌,
  ◌==◌, if◌then◌else◌, length, replicate, get_or, set, codes, bytes_eq, maybe, map,
}
use jungle_week6_coding_sess.Libc.Disk.{Disk}
use jungle_week6_coding_sess.Hyeonok.Text.{is_empty}
use jungle_week6_coding_sess.Hyeonok.Ast.{
  SqlValue, InsertStatement, SelectStatement, SqlStatement, insert_type, select_type, unclassified,
}
use jungle_week6_coding_sess.Hyeonok.Schema.{
  ColumnSchema, Schema, SchemaLoaded, schema_loaded, table_not_found, file_error,
  load_schema_for_table,
}
use jungle_week6_coding_sess.Hyeonok.Storage.{
  Loaded, loaded, not_found, line_feed, append_storage_row, load_storage_text, parse_storage_row,
}

pub data ExecuteResult : Type 0 where
  execute_success execute_invalid_query execute_table_not_found : ExecuteResult
  execute_column_count_mismatch execute_file_error : ExecuteResult

unfoldable pub find_from : ℕ → List ColumnSchema → Bytes → Option ℕ
find_from index [] column_name = none
find_from index (column ∷ columns) column_name =
    let later = find_from (suc index) columns column_name in
    if bytes_eq column.name column_name then some index else later

unfoldable pub find_schema_column_index : Schema → Bytes → Option ℕ
find_schema_column_index schema column_name = find_from 0 schema.columns column_name

-- The first loop of append_insert_row, with `ordered_values` so far.
unfoldable pub order_values :
    Schema → List Bytes → List SqlValue → List (Option SqlValue) → Option (List (Option SqlValue))
order_values schema (column ∷ columns) (value ∷ values) ordered =
    elim (find_schema_column_index schema column) [
      | none ↦ none
      | some schema_index ↦
          let rest = order_values schema columns values (set ordered schema_index (some value)) in
          maybe (get_or ordered schema_index none) rest (λ _. none)
    ]
order_values schema _ _ ordered = some ordered

-- The two other loops: the texts, if no value is missing.
unfoldable pub ordered_texts : List (Option SqlValue) → Option (List Bytes)
ordered_texts [] = some []
ordered_texts (none ∷ ordered) = none
ordered_texts (some value ∷ ordered) =
    maybe (ordered_texts ordered) none (λ texts. some (value.text ∷ texts))

unfoldable pub append_insert_row : InsertStatement → Schema → Disk → ExecuteResult × Disk
append_insert_row insert schema disk =
    maybe
      (order_values schema insert.columns insert.values (replicate (length schema.columns) none))
      (execute_invalid_query, disk)
      (λ ordered.
        maybe (ordered_texts ordered) (execute_invalid_query, disk)
          (λ texts.
            let (stored, disk') = append_storage_row insert.table_name texts disk in
            (if stored then execute_success else execute_file_error, disk')))

unfoldable pub execute_insert_statement : InsertStatement → Disk → ExecuteResult × Disk
execute_insert_statement insert disk = elim (load_schema_for_table insert.table_name disk) [
  | table_not_found ↦ (execute_table_not_found, disk)
  | file_error ↦ (execute_file_error, disk)
  | schema_loaded schema ↦
      if not (length insert.columns == length insert.values)
      then (execute_column_count_mismatch, disk)
      else if not (length insert.columns == length schema.columns)
      then (execute_column_count_mismatch, disk)
      else append_insert_row insert schema disk
]

-- The numbers from `index` on.
unfoldable pub all_indexes : ℕ → List ColumnSchema → List ℕ
all_indexes index [] = []
all_indexes index (column ∷ columns) = index ∷ all_indexes (suc index) columns

unfoldable pub find_indexes : Schema → List Bytes → Option (List ℕ)
find_indexes schema [] = some []
find_indexes schema (column ∷ columns) =
    maybe (find_schema_column_index schema column) none
      (λ index. maybe (find_indexes schema columns) none (λ indexes. some (index ∷ indexes)))

unfoldable pub build_select_column_indexes : SelectStatement → Schema → Option (List ℕ)
build_select_column_indexes select schema =
    if select.select_all
    then some (all_indexes 0 schema.columns)
    else find_indexes schema select.columns

-- Texts with a comma before all but the first, and a line feed.
unfoldable pub print_texts : List Bytes → Bytes
print_texts [] = line_feed ∷ []
print_texts (text ∷ []) = text ++ line_feed ∷ []
print_texts (text ∷ next ∷ texts) = text ++ (b',' ∷ print_texts (next ∷ texts))

abbrev pub column_names : List ColumnSchema → List Bytes
column_names [] = []
column_names (column ∷ columns) = column.name ∷ column_names columns

-- The items at the indexes.
unfoldable pub items_at : List ℕ → List Bytes → List Bytes
items_at [] items = []
items_at (index ∷ indexes) items = get_or items index [] ∷ items_at indexes items

unfoldable pub print_selected_header : SelectStatement → Schema → List ℕ → Bytes
print_selected_header select schema indexes =
    print_texts
      (if select.select_all then items_at indexes (column_names schema.columns) else select.columns)

unfoldable pub print_selected_row : List Bytes → List ℕ → Bytes
print_selected_row fields indexes = print_texts (items_at indexes fields)

-- The lines of the text, as the loop of execute_select_statement cuts them. `line` is what was read
-- since the last line feed.
unfoldable pub lines_from : Bytes → Bytes → List Bytes
lines_from line [] = if is_empty line then [] else line ∷ []
lines_from line (c ∷ rest) =
    let next = line ∷ lines_from [] rest in
    let same = lines_from (line ++ c ∷ []) rest in if c == line_feed then next else same

-- The loop over the lines: what is printed, and whether no line was refused.
unfoldable pub print_lines : SelectStatement → Schema → List ℕ → Bool → List Bytes → Bytes × Bool
print_lines select schema indexes printed_header [] = ([], true)
print_lines select schema indexes printed_header (line ∷ lines) =
    let skipped = print_lines select schema indexes printed_header lines in
    let (text, fine) = print_lines select schema indexes true lines in
    let header = if printed_header then [] else print_selected_header select schema indexes in
    let row =
      maybe (parse_storage_row line (length schema.columns)) ([], false)
        (λ fields. (header ++ (print_selected_row fields indexes ++ text), fine)) in
    if is_empty line then skipped else row

unfoldable pub print_table : SelectStatement → Schema → List ℕ → Loaded → ExecuteResult × Bytes
print_table select schema indexes not_found = (execute_success, [])
print_table select schema indexes Loaded.file_error = (execute_file_error, [])
print_table select schema indexes (loaded data_text) =
    let (text, fine) = print_lines select schema indexes false (lines_from [] data_text) in
    (if fine then execute_success else execute_file_error, text)

unfoldable pub execute_select_statement : SelectStatement → Disk → ExecuteResult × Bytes
execute_select_statement select disk = elim (load_schema_for_table select.table_name disk) [
  | table_not_found ↦ (execute_table_not_found, [])
  | file_error ↦ (execute_file_error, [])
  | schema_loaded schema ↦
      maybe (build_select_column_indexes select schema) (execute_invalid_query, [])
        (λ indexes. print_table select schema indexes (load_storage_text select.table_name disk))
]

-- The files and the two streams.
pub record Streams : Type 0 where
  pub disk : Disk
  pub output : Bytes
  pub errors : Bytes

unfoldable pub execute_query : SqlStatement → Streams → ExecuteResult × Streams
execute_query statement s = elim statement.type [
  | insert_type ↦
      let (result, disk) = execute_insert_statement statement.insert s.disk in
      (result, record s { disk = disk })
  | select_type ↦
      let (result, text) = execute_select_statement statement.select s.disk in
      (result, record s { output = s.output ++ text })
  | unclassified ↦ (execute_invalid_query, s)
]
