-- ===== src/Dragon/Schema.antt =====
-- schema.c. A pointer into the text is the rest of the text from there, so the later of two is the
-- shorter one.
use jungle_week6_coding_sess.Prelude.{
  ℕ, zero, suc, ◌+◌, ◌-◌, Bool, not, ◌&&◌, Option, none, some, Bytes, List, [], ◌∷◌, ◌++◌, ltb, leb,
  if◌then◌else◌, length, take, drop, codes, bytes_eq, maybe,
}
use jungle_week6_coding_sess.Prelude.Chain.{◌>>=◌, ◌>>◌, guard}
use jungle_week6_coding_sess.Libc.Text.{strstr, strchr}
use jungle_week6_coding_sess.Libc.Disk.{
  Disk, FilePath, missing, denied, opened, open_read, c_string,
}
use jungle_week6_coding_sess.Dragon.Types.{ColumnDef, TableDef}

unfoldable pub has_schema_extension : Bytes → Bool
has_schema_extension name =
    leb 7 (length name) && bytes_eq (drop (length name - 7) name) (codes ".schema")

-- What fits in the buffer of 8192 bytes, as a C string.
unfoldable pub read_file_text : Disk → FilePath → Option Bytes
read_file_text disk path = elim (open_read disk path) [
  | missing ↦ none
  | denied ↦ none
  | opened bytes ↦ some (c_string (take 8191 bytes))
]

unfoldable pub extract_json_string : Bytes → Option Bytes
extract_json_string key_pos = do
  colon ← strchr key_pos b':'
  start ← strchr colon b'"'
  end ← strchr (drop 1 start) b'"'
  let len = length (drop 1 start) - length end
  guard (ltb len 256)
  some (take len (drop 1 start))

-- The loop over the columns, with those so far. `array_end` is the length of the text from the end
-- of the array on. A round leaves a shorter text, so its length and one are fuel enough.
unfoldable pub columns_from : ℕ → List ColumnDef → ℕ → Bytes → Option (List ColumnDef)
columns_from zero columns array_end cursor = none
columns_from (suc fuel) columns array_end cursor =
    let column = λ (name_key : Bytes). (do
      guard (ltb (length columns) 32)
      type_key ← strstr name_key (codes "\"type\"")
      guard (ltb array_end (length type_key))
      name ← extract_json_string name_key
      type ← extract_json_string type_key
      columns_from fuel (columns ++ record { name = name; type = type } ∷ []) array_end
          (drop 6 type_key)) in
    if not (ltb array_end (length cursor))
    then some columns
    else maybe (strstr cursor (codes "\"name\"")) (some columns) (λ name_key.
      if not (ltb array_end (length name_key)) then some columns else column name_key)

unfoldable pub parse_schema_content : Bytes → Option TableDef
parse_schema_content content = do
  table_key ← strstr content (codes "\"table\"")
  name ← extract_json_string table_key
  columns_key ← strstr content (codes "\"columns\"")
  array_start ← strchr columns_key b'['
  array_end ← strchr columns_key b']'
  guard (ltb (length array_end) (length array_start))
  columns ← columns_from (suc (length array_start)) [] (length array_end) array_start
  guard (ltb 0 (length columns))
  some (record { name = name; columns = columns })

-- The loop over the names that readdir gives, with the number of tables so far.
unfoldable pub load_entries : Disk → Bytes → ℕ → ℕ → List Bytes → Option (List TableDef)
load_entries disk dir max_tables table_count [] = some []
load_entries disk dir max_tables table_count (name ∷ names) =
    let later = load_entries disk dir max_tables table_count names in
    let path = dir ++ (codes "/" ++ name) in
    let table = (do
      guard (ltb table_count max_tables && ltb (length path) 1024)
      content ← read_file_text disk path
      table ← parse_schema_content content
      tables ← load_entries disk dir max_tables (table_count + 1) names
      some (table ∷ tables)) in
    if not (has_schema_extension name) then later else table

-- `none` as names: opendir fails.
unfoldable pub load_schemas : Disk → Bytes → ℕ → Option (List Bytes) → Option (List TableDef)
load_schemas disk dir max_tables none = none
load_schemas disk dir max_tables (some names) = load_entries disk dir max_tables 0 names
