-- ===== src/Jiun/Storage.antt =====
-- infrastructure/storage.c: a table as a text file with a line for each row.
pub mod Lines
pub mod Shown
pub mod Select
use jungle_week6_coding_sess.Prelude.{
  ℕ, zero, suc, ◌+◌, Bool, true, false, Option, none, some, Bytes, List, [], ◌∷◌, ◌++◌, ltb,
  if◌then◌else◌, length, take, maybe, codes, get_or,
}
use jungle_week6_coding_sess.Libc.Text.{fgets_lines}
use jungle_week6_coding_sess.Libc.Disk.{
  Disk, FilePath, Opened, missing, denied, opened, open_read, open_append, append_bytes, c_string,
}
use jungle_week6_coding_sess.Jiun.Types.{Column, TableSchema, InsertPlan, SelectPlan, max_columns}
use jungle_week6_coding_sess.Jiun.Text.{is_empty, rtrim_inplace}
use jungle_week6_coding_sess.Jiun.Cells.{encode_row, split_tab_line, line_feed}

unfoldable pub data_path : TableSchema → FilePath
data_path schema = take 511 (schema.name ++ codes ".data")

-- The result and the files.
unfoldable pub execute_insert : InsertPlan → Disk → Bool × Disk
execute_insert plan disk =
    let path = data_path plan.schema in
    elim (open_append disk path) [
      | none ↦ (false, disk)
      | some file ↦ (true, append_bytes file path (encode_row plan.values ++ line_feed ∷ []))
    ]

-- The loop over the lines: what is kept of them.
unfoldable pub keep_rows : List Bytes → List Bytes
keep_rows [] = []
keep_rows (line ∷ lines) =
    let row = rtrim_inplace (c_string line) in
    let later = keep_rows lines in if is_empty row then later else row ∷ later

unfoldable pub rows_of : Opened → List Bytes
rows_of missing = []
rows_of denied = []
rows_of (opened bytes) = keep_rows (fgets_lines 32768 bytes)

abbrev pub escape_sequence : Bytes → Bytes
escape_sequence text = 27 ∷ text

abbrev pub color_reset : Bytes
color_reset = escape_sequence (codes "[0m")

abbrev pub color_bold : Bytes
color_bold = escape_sequence (codes "[1m")

-- Texts with a comma between two of them, and a line feed.
unfoldable pub print_fields : List Bytes → Bytes
print_fields [] = line_feed ∷ []
print_fields (field ∷ []) = field ++ line_feed ∷ []
print_fields (field ∷ next ∷ fields) = field ++ (b',' ∷ print_fields (next ∷ fields))

-- The items at the indexes.
unfoldable pub pick : List ℕ → List Bytes → List Bytes
pick [] items = []
pick (i ∷ selected) items = get_or items i [] ∷ pick selected items

abbrev pub column_names : List Column → List Bytes
column_names [] = []
column_names (column ∷ columns) = column.name ∷ column_names columns

-- The lines of the rows that have a field for every column, and their number.
unfoldable pub print_rows : SelectPlan → List Bytes → Bytes × ℕ
print_rows plan [] = ([], 0)
print_rows plan (row ∷ rows) =
    let fields = split_tab_line (take 32767 row) max_columns in
    let (text, count) = print_rows plan rows in
    if ltb (length fields) (length plan.schema.columns)
    then (text, count)
    else (print_fields (pick plan.selected_idx fields) ++ text, count + 1)

abbrev pub if_interactive : Bool → Bytes → Bytes
if_interactive interactive text = if interactive then text else []

-- What is printed, and the number of rows.
unfoldable pub print_selected : SelectPlan → Bool → List Bytes → Bytes × ℕ
print_selected plan interactive [] = ([], 0)
print_selected plan interactive (row ∷ rows) =
    let (text, count) = print_rows plan (row ∷ rows) in
    (
      if_interactive interactive color_bold
          ++ (print_fields (pick plan.selected_idx (column_names plan.schema.columns))
              ++ (if_interactive interactive color_reset ++ text)),
      count,
    )

-- It always succeeds: a file that does not open has no rows.
unfoldable pub execute_select_with_options : SelectPlan → Bool → Disk → Bytes × ℕ
execute_select_with_options plan interactive disk =
    print_selected plan interactive (rows_of (open_read disk (data_path plan.schema)))
