-- ===== src/Jiun/Storage/Select.antt =====
-- execute_insert and execute_select_with_options on a table's file.
use jungle_week6_coding_sess.Prelude.{
  ℕ, ◌⊎◌, ◌+◌, ◌<◌, ◌≤◌, ◌≡◌, refl, sym, ap, ◌∙◌, Bool, true, false, Bytes, List, [], ◌∷◌, ◌++◌,
  map, lt→ltb, le→not_ltb, length, take, take_all, arith, All, Bool-cases, inl, inr, some, bytes_eq,
  bytes_eq_refl,
}
use jungle_week6_coding_sess.Prelude.Spec.{concat, comma_line, at_positions}
use jungle_week6_coding_sess.Libc.Disk.{
  Disk, FilePath, open_read, append_bytes, store_file, contents,
}
use jungle_week6_coding_sess.Libc.Disk.Append.{open_append-contents}
use jungle_week6_coding_sess.Jiun.Types.{Column, InsertPlan, SelectPlan, max_columns}
use jungle_week6_coding_sess.Jiun.Text.{is_empty}
use jungle_week6_coding_sess.Jiun.Cells.{encode_row, split_tab_line, line_feed}
use jungle_week6_coding_sess.Jiun.Cells.Words.{shown, split_tab_line-encode_row}
use jungle_week6_coding_sess.Jiun.Storage.{
  data_path, execute_insert, pick, column_names, print_fields, print_rows, print_selected,
  if_interactive, color_bold, color_reset, execute_select_with_options,
}
use jungle_week6_coding_sess.Jiun.Storage.Lines.{IsStored, file_of, file_of-snoc, rows_of-file_of}
use jungle_week6_coding_sess.Jiun.Storage.Shown.{
  selected_lines, table_text, column_names-map, print_picked,
}

-- The row has a value for every column, none of them empty.
pub record IsComplete (columns : ℕ) (row : List Bytes) : Type 0 where
  pub count : length row ≡ columns
  pub filled : All (λ value. is_empty value ≡ false) row

shown-filled : (row : List Bytes) → All (λ value. is_empty value ≡ false) row → shown row ≡ row
unfolding shown
shown-filled [] h = refl
shown-filled (value ∷ row) h = rw h.0 (ap (◌∷◌ value) (shown-filled row h.1))

-- Some value is empty.
abbrev pub HasEmpty : List Bytes → Type 0
HasEmpty [] = ⊥
HasEmpty (value ∷ row) = (is_empty value ≡ true) ⊎ HasEmpty row

length-shown-le : (row : List Bytes) → length (shown row) ≤ length row
unfolding shown
length-shown-le [] = omega arith
length-shown-le (value ∷ row) = ground (arith, length-shown-le row)

length-shown-HasEmpty : (row : List Bytes) → HasEmpty row → length (shown row) < length row
unfolding shown
length-shown-HasEmpty [] h = absurd h
length-shown-HasEmpty (value ∷ row) (inl e) = rw e (omega (arith, length-shown-le row))
length-shown-HasEmpty (value ∷ row) (inr h) = elim (Bool-cases (is_empty value)) [
  | inl e ↦ rw e (omega (arith, length-shown-HasEmpty row h))
  | inr e ↦ rw e (omega (arith, length-shown-HasEmpty row h))
]

module _ (plan : SelectPlan) (few : length plan.schema.columns ≤ max_columns) where
  fields_of-row :
      (row : List Bytes)
      → IsStored row
      → length row ≤ length plan.schema.columns
      → split_tab_line (take 32767 (encode_row row)) max_columns ≡ shown row
  fields_of-row row s fits =
      ap (λ line. split_tab_line line max_columns)
        (take_all 32767 (encode_row row) (omega (arith, s.fits)))
      ∙ split_tab_line-encode_row row max_columns s.short (omega (arith, few, fits))

  print_rows_complete :
      (row : List Bytes) (lines : List Bytes)
      → IsStored row
      → IsComplete (length plan.schema.columns) row
      → print_rows plan (encode_row row ∷ lines) ≡ (
        comma_line (at_positions plan.selected_idx row) ++ (print_rows plan lines).0,
        (print_rows plan lines).1 + 1,
      )
  unfolding print_rows
  print_rows_complete row lines s c =
      let fields = fields_of-row row s (omega (arith, c.count)) ∙ shown-filled row c.filled in
      rw
        (
          fields,
          le→not_ltb (length row) (length plan.schema.columns) (omega (arith, c.count)),
          print_picked plan.selected_idx row,
        )
        refl

  -- A row with an empty value was stored, and no SELECT shows it: it prints what it prints of the
  -- other lines.
  pub print_rows-HasEmpty :
      (row : List Bytes) (lines : List Bytes)
      → IsStored row
      → length row ≤ length plan.schema.columns
      → HasEmpty row
      → print_rows plan (encode_row row ∷ lines) ≡ print_rows plan lines
  unfolding print_rows
  print_rows-HasEmpty row lines s fits e =
      rw
        (
          fields_of-row row s fits,
          lt→ltb (length (shown row)) (length plan.schema.columns)
              (omega (arith, length-shown-HasEmpty row e, fits)),
        )
        refl

  print_rows-selected_lines :
      (rows : List (List Bytes))
      → All IsStored rows
      → All (IsComplete (length plan.schema.columns)) rows
      → print_rows plan (map encode_row rows) ≡ (selected_lines plan.selected_idx rows, length rows)
  unfolding concat
  print_rows-selected_lines [] s c = unfold print_rows in refl
  print_rows-selected_lines (row ∷ rows) s c =
      let rest = print_rows-selected_lines rows s.1 c.1 in
      let text = comma_line (at_positions plan.selected_idx row) in
      print_rows_complete row (map encode_row rows) s.0 c.0
      ∙ ap (λ (t : Bytes × ℕ). (text ++ t.0, t.1 + 1)) rest
      ∙ ap (λ n. (text ++ selected_lines plan.selected_idx rows, n)) (omega arith)

  print_names :
      print_fields (pick plan.selected_idx (column_names plan.schema.columns))
      ≡ comma_line
          (at_positions plan.selected_idx (map (λ (c : Column). c.name) plan.schema.columns))
  print_names =
      print_picked plan.selected_idx (column_names plan.schema.columns)
      ∙ ap (λ names. comma_line (at_positions plan.selected_idx names))
          (column_names-map plan.schema.columns)

  print_selected-table_text :
      (interactive : Bool) (rows : List (List Bytes))
      → All IsStored rows
      → All (IsComplete (length plan.schema.columns)) rows
      → print_selected plan interactive (map encode_row rows)
        ≡ (table_text plan interactive rows, length rows)
  unfolding print_selected table_text
  print_selected-table_text interactive [] s c = refl
  print_selected-table_text interactive (row ∷ rows) s c =
      let lines = print_rows-selected_lines (row ∷ rows) s c in
      λ i. (
        if_interactive interactive color_bold
            ++ (print_names i ++ (if_interactive interactive color_reset ++ (lines i).0)),
        (lines i).1,
      )

  -- A SELECT on a file with these rows, each complete and stored, prints the selected values of
  -- every row in order under the names of the columns, or nothing if there is none, and counts them.
  pub execute_select-table_text :
      (interactive : Bool) (disk : Disk) (rows : List (List Bytes))
      → disk.can_read (data_path plan.schema) ≡ true
      → disk.file (data_path plan.schema) ≡ some (file_of rows)
      → All IsStored rows
      → All (IsComplete (length plan.schema.columns)) rows
      → execute_select_with_options plan interactive disk
        ≡ (table_text plan interactive rows, length rows)
  unfolding execute_select_with_options open_read
  execute_select-table_text interactive disk rows readable there s c =
      rw (there, readable)
        (ap (print_selected plan interactive) (rows_of-file_of rows s)
          ∙ print_selected-table_text interactive rows s c)

-- If the file may be written, an INSERT succeeds, adds the line of its values to the file of its
-- table, and leaves all other files and the permissions to read.
pub execute_insert-file_of :
    (plan : InsertPlan) (disk : Disk) (rows : List (List Bytes))
    → disk.can_write (data_path plan.schema) ≡ true
    → contents (disk.file (data_path plan.schema)) ≡ file_of rows
    → (disk' : Disk) × (execute_insert plan disk ≡ (true, disk'))
      × (disk'.file (data_path plan.schema) ≡ some (file_of (rows ++ plan.values ∷ [])))
      × ((path : FilePath)
          → bytes_eq path (data_path plan.schema) ≡ false
          → disk'.file path ≡ disk.file path)
      × (disk'.can_read ≡ disk.can_read)
unfolding execute_insert append_bytes store_file
execute_insert-file_of plan disk rows writable there =
    let path = data_path plan.schema in
    let line = encode_row plan.values ++ line_feed ∷ [] in
    let (file, opens, same, others, reads) = open_append-contents disk path writable in
    (
      append_bytes file path line,
      rw (opens, execute_insert) refl,
      rw (bytes_eq_refl path) (
          ap some
            (ap (λ bytes. bytes ++ line) (same ∙ there) ∙ sym (file_of-snoc rows plan.values))),
      (λ p ne. rw ne (others p ne)),
      reads,
    )

-- On a file with these rows, an INSERT of a complete row that can be stored succeeds, and a SELECT
-- on the table after it prints the rows that were there and then the new one.
pub execute_select-execute_insert :
    (plan : InsertPlan) (selected : List ℕ) (interactive : Bool) (disk : Disk)
    (rows : List (List Bytes))
    → disk.can_write (data_path plan.schema) ≡ true
    → disk.can_read (data_path plan.schema) ≡ true
    → contents (disk.file (data_path plan.schema)) ≡ file_of rows
    → length plan.schema.columns ≤ max_columns
    → All IsStored (rows ++ plan.values ∷ [])
    → All (IsComplete (length plan.schema.columns)) (rows ++ plan.values ∷ [])
    → (disk' : Disk) × (execute_insert plan disk ≡ (true, disk'))
      × (execute_select_with_options
            (record { schema = plan.schema; selected_idx = selected })
            interactive
            disk'
          ≡ (
            table_text
                (record { schema = plan.schema; selected_idx = selected })
                interactive
                (rows ++ plan.values ∷ []),
            length (rows ++ plan.values ∷ []),
          ))
execute_select-execute_insert plan selected interactive disk rows writable readable there few s c =
    let (disk', inserted, file, _, reads) = execute_insert-file_of plan disk rows writable there in
    (
      disk',
      inserted,
      execute_select-table_text (record { schema = plan.schema; selected_idx = selected }) few
          interactive disk' (rows ++ plan.values ∷ [])
          (ap (λ f. f (data_path plan.schema)) reads ∙ readable) file s c,
    )
