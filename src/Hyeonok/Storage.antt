-- ===== src/Hyeonok/Storage.antt =====
-- storage.c: a table as a text file with a line for each row.
pub mod Fields
pub mod Lines
use jungle_week6_coding_sess.Prelude.{
  ℕ, zero, suc, Bool, true, false, not, ◌&&◌, ◌||◌, Option, none, some, Bytes, List, [], ◌∷◌, ◌++◌,
  ◌==◌, ltb, if◌then◌else◌, length, drop, codes, maybe,
}
use jungle_week6_coding_sess.Prelude.Chain.{◌>>=◌, ◌>>◌, guard}
use jungle_week6_coding_sess.Libc.Text.{char_at}
use jungle_week6_coding_sess.Libc.Disk.{
  Disk, FilePath, Opened, missing, denied, opened, open_read, open_append, append_bytes,
}
use jungle_week6_coding_sess.Hyeonok.Text.{read_entire_file}

abbrev pub tab : ℕ
tab = 9

abbrev pub line_feed : ℕ
line_feed = 10

-- The results of a load; STORAGE_FORMAT_ERROR is the `none` of parse_storage_row.
pub data Loaded : Type 0 where
  loaded : Bytes → Loaded
  not_found file_error : Loaded

-- The path in the buffer of 512 bytes, if it fits.
unfoldable pub build_table_data_path : Bytes → Option FilePath
build_table_data_path table_name =
    let path = table_name ++ codes ".data" in if ltb (length path) 512 then some path else none

-- What is written for a byte.
unfoldable pub escape : ℕ → Bytes
escape c =
    if c == b'\\'
    then b'\\' ∷ b'\\' ∷ []
    else if c == tab
    then b'\\' ∷ b't' ∷ []
    else if c == line_feed
    then b'\\' ∷ b'n' ∷ []
    else c ∷ []

unfoldable pub write_escaped_text : Bytes → Bytes
write_escaped_text [] = []
write_escaped_text (c ∷ text) = escape c ++ write_escaped_text text

-- The values with a tab before all but the first.
unfoldable pub row_text : List Bytes → Bytes
row_text [] = []
row_text (value ∷ []) = write_escaped_text value
row_text (value ∷ next ∷ values) = write_escaped_text value ++ (tab ∷ row_text (next ∷ values))

-- Whether it succeeds (STORAGE_SUCCESS), and the files.
unfoldable pub append_storage_row : Bytes → List Bytes → Disk → Bool × Disk
append_storage_row table_name values disk = elim (build_table_data_path table_name) [
  | none ↦ (false, disk)
  | some path ↦ elim (open_append disk path) [
    | none ↦ (false, disk)
    | some file ↦ (true, append_bytes file path (row_text values ++ line_feed ∷ []))
  ]
]

unfoldable pub load_storage_text : Bytes → Disk → Loaded
load_storage_text table_name disk = elim (build_table_data_path table_name) [
  | none ↦ file_error
  | some path ↦ elim (open_read disk path) [
    | missing ↦ not_found
    | denied ↦ file_error
    | opened _ ↦ maybe (read_entire_file disk path) file_error loaded
  ]
]

-- The byte that is meant by the one behind a backslash.
unfoldable pub unescape : ℕ → Option ℕ
unescape c =
    if c == b't'
    then some tab
    else if c == b'n'
    then some line_feed
    else if c == b'\\'
    then some b'\\'
    else none

-- A byte in front of what the rest of the field gives.
abbrev pub with_byte : ℕ → Option (Bytes × Bytes) → Option (Bytes × Bytes)
with_byte c none = none
with_byte c (some (text, after)) = some (c ∷ text, after)

-- `none` is STORAGE_FORMAT_ERROR.
unfoldable pub parse_escaped_field : Bytes → Option (Bytes × Bytes)
parse_escaped_field [] = some ([], [])
parse_escaped_field (c ∷ []) =
    if c == tab || c == line_feed
    then some ([], c ∷ [])
    else if c == b'\\'
    then none
    else some (c ∷ [], [])
parse_escaped_field (c ∷ d ∷ rest) =
    let escaped = maybe (unescape d) none (λ e. with_byte e (parse_escaped_field rest)) in
    let plain = with_byte c (parse_escaped_field (d ∷ rest)) in
    if c == tab || c == line_feed
    then some ([], c ∷ d ∷ rest)
    else if c == b'\\'
    then escaped
    else plain

-- The loop over the fields: with one left, no tab is asked for behind it.
unfoldable pub parse_fields : ℕ → Bytes → Option (List Bytes × Bytes)
parse_fields zero cursor = some ([], cursor)
parse_fields (suc zero) cursor = do (field, p) ← parse_escaped_field cursor; some (field ∷ [], p)
parse_fields (suc (suc count)) cursor = do
  (field, p) ← parse_escaped_field cursor
  guard (char_at p == tab)
  (fields, after) ← parse_fields (suc count) (drop 1 p)
  some (field ∷ fields, after)

unfoldable pub parse_storage_row : Bytes → ℕ → Option (List Bytes)
parse_storage_row line_start expected_count = do
  (fields, p) ← parse_fields expected_count line_start
  guard (char_at p == 0 || char_at p == line_feed)
  some fields
