-- ===== src/Hyeonok/Executor/Select.antt =====
-- A SELECT on the file of a table.
use jungle_week6_coding_sess.Prelude.{
  ℕ, ◌≡◌, ◌<◌, lt→ltb, refl, sym, ap, ◌∙◌, Bool, true, false, Bytes, List, [], ◌∷◌, ◌++◌, map, some,
  if◌then◌else◌, All, length, codes,
}
use jungle_week6_coding_sess.Prelude.Spec.{concat, comma_line}
use jungle_week6_coding_sess.Libc.Disk.{Disk, FilePath, opened, open_read}
use jungle_week6_coding_sess.Hyeonok.Text.{is_empty, read_entire_file}
use jungle_week6_coding_sess.Hyeonok.Ast.{SelectStatement}
use jungle_week6_coding_sess.Hyeonok.Schema.{Schema, schema_loaded, load_schema_for_table}
use jungle_week6_coding_sess.Hyeonok.Storage.{
  row_text, parse_storage_row, load_storage_text, loaded, build_table_data_path,
}
use jungle_week6_coding_sess.Hyeonok.Storage.Fields.{parse_storage_row-row_text}
use jungle_week6_coding_sess.Hyeonok.Storage.Lines.{
  IsString, table_file, c_string-table_file, lines_from-table_file,
}
use jungle_week6_coding_sess.Hyeonok.Executor.{
  execute_success, execute_file_error, print_lines, print_table, execute_select_statement,
}
use jungle_week6_coding_sess.Hyeonok.Executor.Columns.{
  SelectsColumns, shown_names, shown_values, Prints, build_select_column_indexes-Prints,
}

-- A row of a table with this number of columns, whose line is not blank: a single empty value has
-- a blank line.
pub record IsRow (columns : ℕ) (row : List Bytes) : Type 0 where
  pub count : length row ≡ columns
  pub holds : is_empty (row_text row) ≡ false

-- The lines that are meant: for each row, the values that the SELECT is to show.
abbrev pub shown_lines : SelectStatement → Schema → List (List Bytes) → Bytes
shown_lines select schema rows =
    concat (map (λ row. comma_line (shown_values select schema row)) rows)

-- The text that is meant: nothing for an empty table, and else the names and the rows.
unfoldable pub table_text : SelectStatement → Schema → List (List Bytes) → Bytes
table_text select schema [] = []
table_text select schema (row ∷ rows) =
    comma_line (shown_names select schema) ++ shown_lines select schema (row ∷ rows)

module _ (select : SelectStatement) (schema : Schema) (indexes : List ℕ)
    (prints : Prints select schema indexes) where
  parse_storage_row-IsRow :
      (row : List Bytes)
      → IsRow (length schema.columns) row
      → parse_storage_row (row_text row) (length schema.columns) ≡ some row
  parse_storage_row-IsRow row r =
      ap (parse_storage_row (row_text row)) (sym r.count) ∙ parse_storage_row-row_text row

  print_lines-shown_lines :
      (rows : List (List Bytes))
      → All (IsRow (length schema.columns)) rows
      → print_lines select schema indexes true (map row_text rows)
        ≡ (shown_lines select schema rows, true)
  unfolding print_lines concat
  print_lines-shown_lines [] r = refl
  print_lines-shown_lines (row ∷ rows) r =
      rw (r.0.holds, parse_storage_row-IsRow row r.0, prints.line row r.0.count)
        (ap (λ (t : Bytes × Bool). (comma_line (shown_values select schema row) ++ t.0, t.1))
          (print_lines-shown_lines rows r.1))

  print_lines-table_text :
      (rows : List (List Bytes))
      → All (IsRow (length schema.columns)) rows
      → print_lines select schema indexes false (map row_text rows)
        ≡ (table_text select schema rows, true)
  unfolding print_lines table_text concat
  print_lines-table_text [] r = refl
  print_lines-table_text (row ∷ rows) r =
      rw (r.0.holds, parse_storage_row-IsRow row r.0, prints.header, prints.line row r.0.count)
        (ap
          (λ (t : Bytes × Bool). (
            comma_line (shown_names select schema)
                ++ (comma_line (shown_values select schema row) ++ t.0),
            t.1,
          ))
          (print_lines-shown_lines rows r.1))

  print_table-table_text :
      (rows : List (List Bytes))
      → All (IsRow (length schema.columns)) rows
      → print_table select schema indexes (loaded (table_file rows))
        ≡ (execute_success, table_text select schema rows)
  unfolding print_table
  print_table-table_text rows r =
      ap (λ (t : Bytes × Bool). (if t.1 then execute_success else execute_file_error, t.0))
        (ap (print_lines select schema indexes false) (lines_from-table_file rows)
          ∙ print_lines-table_text rows r)

abbrev pub data_file : Bytes → FilePath
data_file table_name = table_name ++ codes ".data"

pub build_table_data_path-fits :
    (table_name : Bytes)
    → length (data_file table_name) < 512
    → build_table_data_path table_name ≡ some (data_file table_name)
unfolding build_table_data_path
build_table_data_path-fits table_name fits =
    rw (lt→ltb (length (data_file table_name)) 512 fits) refl

module _ (table_name : Bytes) (disk : Disk) (rows : List (List Bytes))
    (readable : disk.can_read (data_file table_name) ≡ true)
    (there : disk.file (data_file table_name) ≡ some (table_file rows)) where
  open_read-table_file : open_read disk (data_file table_name) ≡ opened (table_file rows)
  unfolding open_read
  open_read-table_file = rw (there, readable) refl

  read_entire_file-table_file :
      All (All IsString) rows
      → read_entire_file disk (data_file table_name) ≡ some (table_file rows)
  unfolding read_entire_file
  read_entire_file-table_file strings =
      rw (read_entire_file, open_read-table_file) (ap some (c_string-table_file rows strings))

  load_storage_text-table_file :
      length (data_file table_name) < 512
      → All (All IsString) rows
      → load_storage_text table_name disk ≡ loaded (table_file rows)
  unfolding load_storage_text
  load_storage_text-table_file fits strings =
      rw
        (
          load_storage_text,
          build_table_data_path-fits table_name fits,
          open_read-table_file,
          read_entire_file-table_file strings,
        )
        refl

-- On a table whose schema loads and whose file holds these rows, each with a value for every
-- column and a line that is not blank, and all values C strings, a SELECT of columns of the schema,
-- or of all, succeeds and prints for every row in order its values for the selected names, empty
-- ones included, with commas, under these names, or nothing if there is no row.
pub execute_select_statement-table_text :
    (select : SelectStatement) (schema : Schema) (disk : Disk) (rows : List (List Bytes))
    → load_schema_for_table select.table_name disk ≡ schema_loaded schema
    → SelectsColumns select schema
    → length (data_file select.table_name) < 512
    → disk.can_read (data_file select.table_name) ≡ true
    → disk.file (data_file select.table_name) ≡ some (table_file rows)
    → All (All IsString) rows
    → All (IsRow (length schema.columns)) rows
    → execute_select_statement select disk ≡ (execute_success, table_text select schema rows)
unfolding execute_select_statement
execute_select_statement-table_text select schema disk rows loads selects fits readable there
      strings r =
    let (indexes, found, prints) = build_select_column_indexes-Prints select schema selects in
    rw
      (
        execute_select_statement,
        loads,
        found,
        load_storage_text-table_file select.table_name disk rows readable there fits strings,
      )
      (print_table-table_text select schema indexes prints rows r)
