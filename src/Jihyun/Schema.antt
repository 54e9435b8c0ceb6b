-- ===== src/Jihyun/Schema.antt =====
-- schema.c: the `.schema` file of a table, read by searching its text for keys.
use jungle_week6_coding_sess.Prelude.{
  ℕ, zero, suc, ◌-◌, Option, none, some, Bytes, List, [], ◌∷◌, ◌++◌, ◌==◌, if◌then◌else◌, length,
  take, drop, codes,
}
use jungle_week6_coding_sess.Jihyun.Status.{invalid_query, table_not_found, file_open_failed}
use jungle_week6_coding_sess.Jihyun.Text.{char_at, skip_spaces, lowercase_inplace, case_equal}
use jungle_week6_coding_sess.Jihyun.Action.{Outcome, done, fail}
use jungle_week6_coding_sess.Libc.Disk.{Disk, Opened, missing, denied, opened, open_read, c_string}
use jungle_week6_coding_sess.Jihyun.Cache.{max_path_length}
unfoldable pub use jungle_week6_coding_sess.Libc.Text.{starts_with, strstr, strchr}

pub record SchemaColumn : Type 0 where
  pub name : Bytes
  pub type : Bytes

pub record TableSchema : Type 0 where
  pub table_name : Bytes
  pub columns : List SchemaColumn

-- read_all_text: the text of the file, as the C string that its buffer holds.
unfoldable pub text_of : Opened → Outcome Bytes
text_of missing = fail table_not_found
text_of denied = fail file_open_failed
text_of (opened bytes) = done (c_string bytes)

-- The loop of find_json_key: every match is shorter than the text, so the length of the text is
-- fuel enough.
unfoldable pub find_json_key_from : ℕ → Bytes → Bytes → Option Bytes
find_json_key_from zero cursor key = none
find_json_key_from (suc fuel) cursor key = elim (strstr cursor key) [
  | none ↦ none
  | some scan ↦
      let after_key = drop (length key) scan in
      let later = find_json_key_from fuel after_key key in
      if char_at (skip_spaces after_key) == b':' then some scan else later
]

unfoldable pub find_json_key : Bytes → Bytes → Option Bytes
find_json_key cursor key = find_json_key_from (suc (length cursor)) cursor key

infixl 5 ◌>>=◌
-- `if (p == NULL) return NULL;`
abbrev pub ◌>>=◌ {ℓ κ} : {A : Type ℓ} {B : Type κ} → Option A → (A → Option B) → Option B
none >>= f = none
some a >>= f = f a

unfoldable pub extract_string_after_key : Bytes → Bytes → Option Bytes
extract_string_after_key cursor key = do
  key_pos ← find_json_key cursor key
  colon ← strchr (drop (length key) key_pos) b':'
  first_quote ← strchr colon b'"'
  second_quote ← strchr (drop 1 first_quote) b'"'
  some (take (length first_quote - length second_quote - 1) (drop 1 first_quote))

abbrev pub table_key : Bytes
table_key = codes "\"table\""

abbrev pub columns_key : Bytes
columns_key = codes "\"columns\""

abbrev pub name_key : Bytes
name_key = codes "\"name\""

abbrev pub type_key : Bytes
type_key = codes "\"type\""

-- One round of the loop of schema_load, at a `"name"` key: the column and the next cursor.
unfoldable pub read_column : Bytes → Option (SchemaColumn × Bytes)
read_column cursor = do
  name ← extract_string_after_key cursor name_key
  type_pos ← find_json_key cursor type_key
  type ← extract_string_after_key type_pos type_key
  some (
    record { name = lowercase_inplace name; type = lowercase_inplace type },
    drop (length type_key) type_pos,
  )

-- The loop. Every round leaves a shorter text.
unfoldable pub read_columns : ℕ → Bytes → List SchemaColumn → Outcome (List SchemaColumn)
read_columns zero cursor columns = done columns
read_columns (suc fuel) cursor columns = elim (find_json_key cursor name_key) [
  | none ↦ done columns
  | some at_name ↦ elim (read_column at_name) [
    | none ↦ fail invalid_query
    | some (column, next) ↦ read_columns fuel next (columns ++ column ∷ [])
  ]
]

unfoldable pub parse_schema : Bytes → Outcome TableSchema
parse_schema content = elim (extract_string_after_key content table_key) [
  | none ↦ fail invalid_query
  | some table ↦ elim (strstr content columns_key) [
    | none ↦ fail invalid_query
    | some columns_section ↦ elim (read_columns (suc (length columns_section)) columns_section []) [
      | fail e ↦ fail e
      | done columns ↦ done (record { table_name = lowercase_inplace table; columns = columns })
    ]
  ]
]

-- `snprintf(path, sizeof(path), "%s/%s<suffix>", dir, table_name)`
unfoldable pub build_path : Bytes → Bytes → Bytes → Bytes
build_path dir table_name suffix =
    take (max_path_length - 1) (dir ++ (b'/' ∷ (table_name ++ suffix)))

unfoldable pub schema_load : Disk → Bytes → Bytes → Outcome TableSchema
schema_load disk schema_dir table_name =
    elim (text_of (open_read disk (build_path schema_dir table_name (codes ".schema")))) [
      | fail e ↦ fail e
      | done content ↦ parse_schema content
    ]

-- The index of the first column of that name, where the code returns -1 for none.
unfoldable pub find_column_from : ℕ → List SchemaColumn → Bytes → Option ℕ
find_column_from index [] column_name = none
find_column_from index (column ∷ columns) column_name =
    let later = find_column_from (suc index) columns column_name in
    if case_equal column.name column_name then some index else later

unfoldable pub schema_find_column : TableSchema → Bytes → Option ℕ
schema_find_column schema = find_column_from 0 schema.columns
