-- ===== src/Hyeonok/Schema.antt =====
-- schema.c: schema files, parsed as a part of JSON. The loops run on fuel: each round shortens the
-- text, so its length and one are fuel enough.
use jungle_week6_coding_sess.Prelude.{
  ℕ, zero, suc, Bool, true, false, not, ◌&&◌, Option, none, some, Bytes, List, [], ◌∷◌, ◌++◌, ◌==◌,
  ltb, if◌then◌else◌, length, drop, codes, bytes_eq, maybe,
}
use jungle_week6_coding_sess.Prelude.Chain.{◌>>=◌, ◌>>◌, guard}
use jungle_week6_coding_sess.Libc.Text.{char_at}
use jungle_week6_coding_sess.Libc.Disk.{Disk, Opened, missing, denied, opened, open_read}
use jungle_week6_coding_sess.Hyeonok.Text.{is_empty, skip_spaces, read_entire_file}

pub data ColumnType : Type 0 where
  string_column int_column : ColumnType

pub record ColumnSchema : Type 0 where
  pub name : Bytes
  pub type : ColumnType

pub record Schema : Type 0 where
  pub table_name : Bytes
  pub columns : List ColumnSchema

unfoldable pub expect_char : Bytes → ℕ → Option Bytes
expect_char cursor expected =
    let p = skip_spaces cursor in if not (char_at p == expected) then none else some (drop 1 p)

-- The text up to the next double quote, and what stands behind it. A backslash is refused.
unfoldable pub until_double_quote : Bytes → Option (Bytes × Bytes)
until_double_quote [] = none
until_double_quote (c ∷ rest) =
    let later : Option (Bytes × Bytes) = elim (until_double_quote rest) [
      | none ↦ none
      | some (text, after) ↦ some (c ∷ text, after)
    ] in
    if c == b'"' then some ([], rest) else if c == b'\\' then none else later

unfoldable pub parse_json_string : Bytes → Option (Bytes × Bytes)
parse_json_string cursor = do p ← expect_char cursor b'"'; until_double_quote p

unfoldable pub parse_column_type : Bytes → Option ColumnType
parse_column_type type_name =
    if bytes_eq type_name (codes "string")
    then some string_column
    else if bytes_eq type_name (codes "int")
    then some int_column
    else none

-- The name and the type so far; `none` where `has_name` and `has_type` are 0.
pub record Fields : Type 0 where
  pub name : Option Bytes
  pub type : Option ColumnType

-- A key with its value. Other keys are passed over.
unfoldable pub add_field : Bytes → Bytes → Fields → Option Fields
add_field key value fields =
    if bytes_eq key (codes "name")
    then some (record fields { name = some value })
    else if bytes_eq key (codes "type")
    then (do type ← parse_column_type value; some (record fields { type = some type }))
    else some fields

-- `if (**cursor == ',') { (*cursor)++; continue; } break;`
abbrev pub continue_or {ℓ} : {A : Type ℓ} → Bytes → Option A → Option A → Option A
continue_or p more stop = if char_at p == b',' then more else stop

-- The loop of parse_column_object.
unfoldable pub parse_pairs : ℕ → Fields → Bytes → Option (Fields × Bytes)
parse_pairs zero fields cursor = none
parse_pairs (suc fuel) fields cursor = do
  (key, p) ← parse_json_string cursor
  p ← expect_char p b':'
  (value, p) ← parse_json_string p
  fields ← add_field key value fields
  let p = skip_spaces p
  continue_or p (parse_pairs fuel fields (drop 1 p)) (some (fields, p))

unfoldable pub parse_column_object : Bytes → Option (ColumnSchema × Bytes)
parse_column_object cursor = do
  p ← expect_char cursor b'{'
  (fields, p) ← parse_pairs (suc (length p)) (record { name = none; type = none }) p
  p ← expect_char p b'}'
  name ← fields.name
  type ← fields.type
  some (record { name = name; type = type }, p)

-- The loop of parse_columns_array, with the columns of the schema so far.
unfoldable pub parse_objects : ℕ → List ColumnSchema → Bytes → Option (List ColumnSchema × Bytes)
parse_objects zero columns cursor = none
parse_objects (suc fuel) columns cursor = do
  (column, p) ← parse_column_object cursor
  let columns = columns ++ column ∷ []
  let p = skip_spaces p
  continue_or p (parse_objects fuel columns (drop 1 p)) (some (columns, p))

unfoldable pub parse_columns_array : List ColumnSchema → Bytes → Option (List ColumnSchema × Bytes)
parse_columns_array columns cursor = do
  p ← expect_char cursor b'['
  let p = skip_spaces p
  let objects = (do
    (columns, p) ← parse_objects (suc (length p)) columns p
    p ← expect_char p b']'
    some (columns, p))
  (if char_at p == b']' then some (columns, drop 1 p) else objects)

-- The members of the object so far; `none` where `has_table` or `has_columns` is 0. The columns of
-- the schema are those of all lists.
pub record Members : Type 0 where
  pub table : Option Bytes
  pub has_columns : Bool
  pub columns : List ColumnSchema

-- The value of a key, and the rest.
unfoldable pub parse_member : Bytes → Members → Bytes → Option (Members × Bytes)
parse_member key members cursor =
    let table = (do
      (value, p) ← parse_json_string cursor
      some (record members { table = some value }, p)) in
    let columns = (do
      (columns, p) ← parse_columns_array members.columns cursor
      some (record members { has_columns = true; columns = columns }, p)) in
    if bytes_eq key (codes "table")
    then table
    else if bytes_eq key (codes "columns")
    then columns
    else none

-- The loop of parse_schema_json: behind it stands what follows the closing brace.
unfoldable pub parse_members : ℕ → Members → Bytes → Option (Members × Bytes)
parse_members zero members cursor = none
parse_members (suc fuel) members cursor =
    let start = skip_spaces cursor in
    let member = (do
      (key, p) ← parse_json_string start
      p ← expect_char p b':'
      (members, p) ← parse_member key members p
      let p = skip_spaces p
      let closed = if char_at p == b'}' then some (members, drop 1 p) else none
      continue_or p (parse_members fuel members (drop 1 p)) closed) in
    if char_at start == b'}' then some (members, drop 1 start) else member

unfoldable pub parse_schema_json : Bytes → Option Schema
parse_schema_json json_text = do
  p ← expect_char json_text b'{'
  (members, p) ←
      parse_members (suc (length p)) (record { table = none; has_columns = false; columns = [] }) p
  guard (is_empty (skip_spaces p))
  table_name ← members.table
  guard (members.has_columns && ltb 0 (length members.columns))
  some (record { table_name = table_name; columns = members.columns })

-- SchemaLoadResult.
pub data SchemaLoaded : Type 0 where
  schema_loaded : Schema → SchemaLoaded
  table_not_found file_error : SchemaLoaded

-- The file as it opens, and the text that is read of it.
unfoldable pub schema_of : Opened → Option Bytes → SchemaLoaded
schema_of missing json_text = table_not_found
schema_of denied json_text = file_error
schema_of (opened _) none = file_error
schema_of (opened _) (some json_text) = maybe (parse_schema_json json_text) file_error schema_loaded

unfoldable pub load_schema_for_table : Bytes → Disk → SchemaLoaded
load_schema_for_table table_name disk =
    let path = table_name ++ codes ".schema" in
    let found = schema_of (open_read disk path) (read_entire_file disk path) in
    if not (ltb (length path) 512) then file_error else found
