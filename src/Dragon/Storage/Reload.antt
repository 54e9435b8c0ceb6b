-- ===== src/Dragon/Storage/Reload.antt =====
-- A table that is written and read again.
use jungle_week6_coding_sess.Prelude.{
  ℕ, zero, suc, arith, ◌≡◌, ◌+◌, ◌*◌, ◌/◌, ◌%◌, ◌<◌, ◌≤◌, refl, sym, ap, ◌∙◌, true, false, not,
  ◌&&◌, Bytes, List, [], ◌∷◌, ◌++◌, append_assoc, map, some, ltb, leb, lt→not_leb, Bool-cases, inl,
  inr, eq_of_some, length, length-append, All, All-append, bytes_eq, bytes_eq_iff, bytes_eq_refl,
  ◌==◌, ==_iff,
}
use jungle_week6_coding_sess.Libc.Text.{digits, decimal, fgets_from, fgets_lines}
use jungle_week6_coding_sess.Libc.Text.Lines.{IsInLine, fgets_from-line, c_string-line}
use jungle_week6_coding_sess.Libc.Disk.{
  Disk, FilePath, opened, open_read, open_write, append_bytes, store_file, c_string,
}
use jungle_week6_coding_sess.Dragon.Types.{ColumnDef, TableDef, err_none, filled, max_rows}
use jungle_week6_coding_sess.Dragon.Rows.{
  line_feed, encode_values, write_encoded_row, parse_encoded_row,
}
use jungle_week6_coding_sess.Dragon.Rows.RoundTrip.{IsValue, parse_encoded_row-write_encoded_row}
use jungle_week6_coding_sess.Dragon.Storage.{
  FileStore, find_table, build_table_path, column_names, load_lines, load_opened, load_full_table,
  file_read_all_rows, file_replace_rows, encode_rows,
}

-- A row that is read back: it has a value for every column, each fits in its buffer and holds
-- neither a NUL nor a line feed.
pub record IsRow (columns : ℕ) (row : List Bytes) : Type 0 where
  pub count : length row ≡ columns
  pub values : All IsValue row
  pub in_line : All (All IsInLine) row

IsInLine-digit : (d : ℕ) → IsInLine (48 + d)
IsInLine-digit d = record { positive = omega arith; no_line_feed = λ q. omega arith }

digits-IsInLine : (fuel n : ℕ) → All IsInLine (digits fuel n)
unfolding digits
digits-IsInLine zero n = tt
digits-IsInLine (suc fuel) n =
    let front = digits-IsInLine fuel (n / 10) in
    elim (Bool-cases (ltb n 10)) [
      | inl e ↦ rw e (IsInLine-digit n, tt)
      | inr e ↦
          rw e (All-append IsInLine (digits fuel (n / 10)) _ front (IsInLine-digit (n % 10), tt))
    ]

length-digits-le : (fuel n : ℕ) → length (digits fuel n) ≤ fuel
unfolding digits
length-digits-le zero n = omega arith
length-digits-le (suc fuel) n =
    let front = length-digits-le fuel (n / 10) in
    elim (Bool-cases (ltb n 10)) [
      | inl e ↦ rw e (omega arith)
      | inr e ↦
          rw e (omega (arith, front, length-append (digits fuel (n / 10)) ((48 + n % 10) ∷ [])))
    ]

encode_values-IsInLine :
    (row : List Bytes) → All (All IsInLine) row → All IsInLine (encode_values row)
unfolding encode_values decimal
encode_values-IsInLine [] h = tt
encode_values-IsInLine (value ∷ row) h =
    let colon : IsInLine b':' = record {
      positive = omega arith;
      no_line_feed = λ q. omega arith;
    } in
    All-append IsInLine (digits 20 (length value)) (b':' ∷ value ++ encode_values row)
      (digits-IsInLine 20 (length value))
      (colon, All-append IsInLine value (encode_values row) h.0 (encode_values-IsInLine row h.1))

length-encode_values-le :
    (row : List Bytes) → All IsValue row → length (encode_values row) ≤ 276 * length row
unfolding encode_values decimal
length-encode_values-le [] h = omega arith
length-encode_values-le (value ∷ row) h = omega (
  arith,
  h.0,
  length-encode_values-le row h.1,
  length-digits-le 20 (length value),
  length-append (digits 20 (length value)) (b':' ∷ value ++ encode_values row),
  length-append value (encode_values row),
)

module _ (table : TableDef) (narrow : length table.columns ≤ 32) where
  -- The lines of the file are those of the rows.
  fgets_lines-encode_rows :
      (rows : List (List Bytes))
      → All (IsRow (length table.columns)) rows
      → fgets_lines 16384 (encode_rows rows) ≡ map write_encoded_row rows
  unfolding fgets_lines encode_rows write_encoded_row
  fgets_lines-encode_rows [] h = unfold fgets_from in refl
  fgets_lines-encode_rows (row ∷ rows) h =
      let fits : length (encode_values row) < 16383 =
        omega (arith, narrow, h.0.count, length-encode_values-le row h.0.values) in
      ap (fgets_from 16384 16383 [])
        (append_assoc (encode_values row) (line_feed ∷ []) (encode_rows rows))
      ∙ fgets_from-line 16384 16383 [] (encode_values row) (encode_rows rows)
          (encode_values-IsInLine row h.0.in_line) fits
      ∙ ap (◌∷◌ (encode_values row ++ line_feed ∷ [])) (fgets_lines-encode_rows rows h.1)

  parse_encoded_row-line :
      (row : List Bytes)
      → IsRow (length table.columns) row
      → parse_encoded_row (c_string (write_encoded_row row)) (length table.columns) ≡ some row
  unfolding write_encoded_row
  parse_encoded_row-line row r =
      rw (c_string-line (encode_values row) (encode_values-IsInLine row r.in_line), ← r.count)
        (parse_encoded_row-write_encoded_row row r.values)

  load_lines-rows :
      (row_count : ℕ) (rows : List (List Bytes))
      → row_count + length rows ≤ max_rows
      → All (IsRow (length table.columns)) rows
      → load_lines table row_count (map write_encoded_row rows) ≡ filled rows
  unfolding load_lines
  load_lines-rows row_count [] few h = refl
  load_lines-rows row_count (row ∷ rows) few h =
      let room : leb max_rows row_count ≡ false = lt→not_leb _ _ (omega arith) in
      rw
        (
          load_lines,
          room,
          parse_encoded_row-line row h.0,
          load_lines-rows (row_count + 1) rows (omega arith) h.1,
        )
        refl

  load_opened-encode_rows :
      (rows : List (List Bytes))
      → length rows ≤ max_rows
      → All (IsRow (length table.columns)) rows
      → load_opened table (opened (encode_rows rows))
        ≡ filled (record { headers = column_names table.columns; rows = rows })
  unfolding load_opened
  load_opened-encode_rows rows few h =
      rw (load_opened, fgets_lines-encode_rows rows h, load_lines-rows 0 rows (omega arith) h) refl

length-column_names : (columns : List ColumnDef) → length (column_names columns) ≡ length columns
length-column_names [] = refl
length-column_names (column ∷ columns) = ap suc (length-column_names columns)

-- The test of the headers of a whole result.
headers_match :
    (columns : List ColumnDef)
    → (not (length (column_names columns) == 0)
        && not (length (column_names columns) == length columns))
      ≡ false
headers_match columns =
    let same : (length (column_names columns) == length columns) ≡ true =
      (==_iff _ _).1 (length-column_names columns) in
    elim (Bool-cases (length (column_names columns) == 0)) [
      | inl e ↦ rw e refl
      | inr e ↦ rw (e, same) refl
    ]

find_table-name :
    (tables : List TableDef) (name : Bytes) (table : TableDef)
    → find_table tables name ≡ some table
    → table.name ≡ name
unfolding find_table
find_table-name [] name table h = absurd cc
find_table-name (first ∷ tables) name table h = elim (Bool-cases (bytes_eq first.name name)) [
  | inl e ↦
      sym (ap (λ (t : TableDef). t.name) (eq_of_some (rw (find_table, e) at h)))
      ∙ (bytes_eq_iff first.name name).0 e
  | inr e ↦ find_table-name tables name table (rw (find_table, e) at h)
]

-- On a store with this table, whose file may be read and written, replacing the rows by at most
-- 1024 rows that can be read back succeeds, changes no other file and no permission to read, and
-- reading the table gives these rows.
pub file_read_all_rows-file_replace_rows :
    (store : FileStore) (table : TableDef) (table_name : Bytes) (path : FilePath)
    (rows : List (List Bytes)) (disk : Disk)
    → find_table store.tables table_name ≡ some table
    → build_table_path store table_name ≡ some path
    → length table.columns ≤ 32
    → disk.can_write path ≡ true
    → disk.can_read path ≡ true
    → length rows ≤ max_rows
    → All (IsRow (length table.columns)) rows
    → (disk' : Disk) × (file_replace_rows store table_name
          (record { headers = column_names table.columns; rows = rows })
          disk
        ≡ (err_none, disk'))
      × (file_read_all_rows store table_name disk'
          ≡ filled (record { headers = column_names table.columns; rows = rows }))
      × ((p : FilePath) → bytes_eq p path ≡ false → disk'.file p ≡ disk.file p)
      × (disk'.can_read ≡ disk.can_read)
unfolding file_replace_rows file_read_all_rows load_full_table open_write open_read append_bytes
    store_file
file_read_all_rows-file_replace_rows store table table_name path rows disk found named narrow
      writable readable few h =
    let path' : build_table_path store table.name ≡ some path =
      ap (build_table_path store) (find_table-name store.tables table_name table found) ∙ named in
    (
      append_bytes (store_file disk path []) path (encode_rows rows),
      rw (file_replace_rows, found, headers_match table.columns, named, writable) refl,
      rw (file_read_all_rows, found, path', bytes_eq_refl path, readable)
          (load_opened-encode_rows table narrow rows few h),
      (λ p ne. rw ne refl),
      refl,
    )
