-- ===== src/Hyeonok/Executor/Insert.antt =====
-- An INSERT into the file of a table, and the SELECT behind it.
use jungle_week6_coding_sess.Prelude.{
  ◌≡◌, ◌<◌, refl, sym, ap, ◌∙◌, true, false, Bytes, List, [], ◌∷◌, ◌++◌, some, All, length, codes,
  bytes_eq, ◌==◌, ==_iff, ==_refl,
}
use jungle_week6_coding_sess.Libc.Disk.{
  Disk, FilePath, open_found, open_read, append_bytes, store_file, contents,
}
use jungle_week6_coding_sess.Libc.Disk.Append.{open_append-append_bytes}
use jungle_week6_coding_sess.Hyeonok.Text.{read_entire_file}
use jungle_week6_coding_sess.Hyeonok.Ast.{InsertStatement, SelectStatement}
use jungle_week6_coding_sess.Hyeonok.Schema.{Schema, schema_loaded, load_schema_for_table}
use jungle_week6_coding_sess.Hyeonok.Storage.{row_text, append_storage_row, line_feed}
use jungle_week6_coding_sess.Hyeonok.Storage.Lines.{IsString, table_file, table_file-snoc}
use jungle_week6_coding_sess.Hyeonok.Executor.{
  execute_success, append_insert_row, execute_insert_statement, execute_select_statement,
}
use jungle_week6_coding_sess.Hyeonok.Executor.Columns.{SelectsColumns}
use jungle_week6_coding_sess.Hyeonok.Executor.Fills.{FillsSchema, row_given}
use jungle_week6_coding_sess.Hyeonok.Executor.Order.{order_values-FillsSchema}
use jungle_week6_coding_sess.Hyeonok.Executor.Select.{
  IsRow, table_text, data_file, build_table_data_path-fits, execute_select_statement-table_text,
}

-- If the file may be written, a row is stored behind the others, and nothing else changes.
append_storage_row-table_file :
    (table_name : Bytes) (row : List Bytes) (disk : Disk) (rows : List (List Bytes))
    → length (data_file table_name) < 512
    → disk.can_write (data_file table_name) ≡ true
    → contents (disk.file (data_file table_name)) ≡ table_file rows
    → (disk' : Disk) × (append_storage_row table_name row disk ≡ (true, disk'))
      × (disk'.file (data_file table_name) ≡ some (table_file (rows ++ row ∷ [])))
      × ((p : FilePath) → bytes_eq p (data_file table_name) ≡ false → disk'.file p ≡ disk.file p)
      × (disk'.can_read ≡ disk.can_read)
unfolding append_storage_row append_bytes store_file
append_storage_row-table_file table_name row disk rows fits writable there =
    let (file, opens, stored, others, reads) =
      open_append-append_bytes disk (data_file table_name) (row_text row ++ line_feed ∷ [])
        (table_file rows) writable there in
    (
      append_bytes file (data_file table_name) (row_text row ++ line_feed ∷ []),
      rw (append_storage_row, build_table_data_path-fits table_name fits, opens) refl,
      stored ∙ ap some (sym (table_file-snoc rows row)),
      others,
      reads,
    )

schema-ne-data : (name : Bytes) → bytes_eq (name ++ codes ".schema") (data_file name) ≡ false
unfolding bytes_eq
schema-ne-data [] = refl
schema-ne-data (c ∷ name) = rw (==_refl c) (schema-ne-data name)

open_read-same :
    (disk disk' : Disk) (path : FilePath)
    → disk'.file path ≡ disk.file path
    → disk'.can_read ≡ disk.can_read
    → open_read disk' path ≡ open_read disk path
unfolding open_read
open_read-same disk disk' path file reads = λ i. open_found (reads i path) (file i)

read_entire_file-same :
    (disk disk' : Disk) (path : FilePath)
    → disk'.file path ≡ disk.file path
    → disk'.can_read ≡ disk.can_read
    → read_entire_file disk' path ≡ read_entire_file disk path
unfolding read_entire_file
read_entire_file-same disk disk' path file reads =
    rw (read_entire_file, open_read-same disk disk' path file reads) refl

-- A schema loads from the file that it loaded from before.
load_schema_for_table-same :
    (table_name : Bytes) (disk disk' : Disk)
    → disk'.file (table_name ++ codes ".schema") ≡ disk.file (table_name ++ codes ".schema")
    → disk'.can_read ≡ disk.can_read
    → load_schema_for_table table_name disk' ≡ load_schema_for_table table_name disk
unfolding load_schema_for_table
load_schema_for_table-same table_name disk disk' file reads =
    let path = table_name ++ codes ".schema" in
    rw (open_read-same disk disk' path file reads, read_entire_file-same disk disk' path file reads)
      refl

-- An INSERT with a value for each of its columns, which names every column of a loaded schema
-- once, succeeds, and a SELECT on the same table after it prints the rows that were there and then
-- a new one, which has at each column of the schema the text that the INSERT gives for this column,
-- if the row can be stored and the file may be read and written.
pub execute_select_statement-execute_insert_statement :
    (insert : InsertStatement) (select : SelectStatement) (schema : Schema) (disk : Disk)
    (rows : List (List Bytes))
    → load_schema_for_table insert.table_name disk ≡ schema_loaded schema
    → FillsSchema insert schema
    → select.table_name ≡ insert.table_name
    → SelectsColumns select schema
    → length (data_file insert.table_name) < 512
    → disk.can_write (data_file insert.table_name) ≡ true
    → disk.can_read (data_file insert.table_name) ≡ true
    → contents (disk.file (data_file insert.table_name)) ≡ table_file rows
    → All (All IsString) (rows ++ row_given insert schema ∷ [])
    → All (IsRow (length schema.columns)) (rows ++ row_given insert schema ∷ [])
    → (disk' : Disk) × (execute_insert_statement insert disk ≡ (execute_success, disk'))
      × (execute_select_statement select disk'
          ≡ (execute_success, table_text select schema (rows ++ row_given insert schema ∷ [])))
unfolding execute_insert_statement append_insert_row
execute_select_statement-execute_insert_statement insert select schema disk rows loads fills same
      selects fits writable readable there strings r =
    let row = row_given insert schema in
    let (ordered, in_order, texts) = order_values-FillsSchema insert schema fills in
    let (disk', appended, stored, others, reads) =
      append_storage_row-table_file insert.table_name row disk rows fits writable there in
    let values_test : (length insert.columns == length insert.values) ≡ true =
      (==_iff _ _).1 fills.values in
    let columns_test : (length insert.columns == length schema.columns) ≡ true =
      (==_iff _ _).1 fills.columns in
    let loads' =
      load_schema_for_table-same insert.table_name disk disk'
        (others (insert.table_name ++ codes ".schema") (schema-ne-data insert.table_name)) reads
      ∙ loads in
    (
      disk',
      rw
          (
            execute_insert_statement, loads, values_test, columns_test, append_insert_row, in_order,
            texts, appended,
          )
          refl,
      execute_select_statement-table_text select schema disk' (rows ++ row ∷ [])
          (ap (λ name. load_schema_for_table name disk') same ∙ loads') selects (rw same fits)
          (rw same (ap (λ f. f (data_file insert.table_name)) reads ∙ readable)) (rw same stored)
          strings r,
    )
