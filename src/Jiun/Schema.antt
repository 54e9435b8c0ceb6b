-- ===== src/Jiun/Schema.antt =====
-- domain/schema.c and infrastructure/file_io.c: schema files, read by searching for keys.
pub mod Fuel
use jungle_week6_coding_sess.Prelude.{
  ℕ, zero, suc, ◌-◌, not, Option, none, some, Bytes, List, [], ◌∷◌, ◌++◌, ◌==◌, ltb, leb,
  if◌then◌else◌, length, take, drop, maybe, codes, bytes_eq,
}
use jungle_week6_coding_sess.Libc.Text.{char_at, strstr, strchr}
use jungle_week6_coding_sess.Libc.Disk.{
  Disk, FilePath, missing, denied, opened, open_read, c_string,
}
use jungle_week6_coding_sess.Jiun.Types.{Column, TableSchema, SchemaRegistry, max_columns}
use jungle_week6_coding_sess.Jiun.Text.{skip_ws}

-- The text of a regular file that can be read, up to its first NUL.
unfoldable pub read_entire_file : Disk → FilePath → Option Bytes
read_entire_file disk path = elim (open_read disk path) [
  | missing ↦ none
  | denied ↦ none
  | opened bytes ↦ some (c_string bytes)
]

-- The text before the next double quote.
unfoldable pub before_double_quote : Bytes → Option Bytes
before_double_quote [] = none
before_double_quote (c ∷ rest) =
    let later : Option Bytes = elim (before_double_quote rest) [
      | none ↦ none
      | some text ↦ some (c ∷ text)
    ] in
    if c == b'"' then some [] else later

-- A loop on fuel: it needs more, or it returns this.
pub data Run {ℓ} (A : Type ℓ) : Type ℓ where
  out_of_fuel : Run A
  returned : A → Run A

-- The loop of extract_json_string_after_key from `p` on.
unfoldable pub extract_from : ℕ → Bytes → ℕ → Bytes → Run (Option Bytes)
extract_from zero key out_sz p = out_of_fuel
extract_from (suc fuel) key out_sz p = elim (strstr p key) [
  | none ↦ returned none
  | some found ↦ elim (strchr (drop (length key) found) b':') [
    | none ↦ returned none
    | some colon ↦
        let value = skip_ws (drop 1 colon) in
        let next = extract_from fuel key out_sz value in
        if not (char_at value == b'"')
        then next
        else returned (
            maybe (before_double_quote (drop 1 value)) none (λ text. some (take (out_sz - 1) text)))
  ]
]

unfoldable pub extract_json_string_after_key : Bytes → Bytes → ℕ → Run (Option Bytes)
extract_json_string_after_key key start_at out_sz =
    extract_from (suc (length start_at)) key out_sz start_at

abbrev pub name_key : Bytes
name_key = codes "\"name\""

abbrev pub type_key : Bytes
type_key = codes "\"type\""

-- The loop over the columns, with those so far.
unfoldable pub columns_from : ℕ → List Column → Bytes → Run (Option (List Column))
columns_from zero columns text = out_of_fuel
columns_from (suc fuel) columns text = elim (strstr text name_key) [
  | none ↦ returned (some columns)
  | some p ↦ elim (extract_json_string_after_key name_key p 256) [
    | out_of_fuel ↦ out_of_fuel
    | returned none ↦ returned none
    | returned (some col_name) ↦ elim (strstr p type_key) [
      | none ↦ columns_from fuel columns (drop 6 p)
      | some probe ↦ elim (extract_json_string_after_key type_key p 256) [
        | out_of_fuel ↦ out_of_fuel
        | returned none ↦ returned none
        | returned (some col_type) ↦
            let next =
              columns_from fuel (columns ++ record { name = col_name; type = col_type } ∷ [])
                (drop 6 probe) in
            if leb max_columns (length columns) then returned none else next
      ]
    ]
  ]
]

-- load_one_schema from the text on.
unfoldable pub schema_of : Bytes → Run (Option TableSchema)
schema_of json = elim (extract_json_string_after_key (codes "\"table\"") json 256) [
  | out_of_fuel ↦ out_of_fuel
  | returned none ↦ returned none
  | returned (some table_name) ↦ elim (columns_from (suc (length json)) [] json) [
    | out_of_fuel ↦ out_of_fuel
    | returned none ↦ returned none
    | returned (some columns) ↦ returned (
        if length columns == 0
        then none
        else some (record { name = table_name; columns = columns }))
  ]
]

-- What a loop returns.
unfoldable pub result_of : {A : Type 0} → Run (Option A) → Option A
result_of out_of_fuel = none
result_of (returned result) = result

unfoldable pub load_one_schema : Disk → FilePath → Option TableSchema
load_one_schema disk path =
    maybe (read_entire_file disk path) none (λ json. result_of (schema_of json))

unfoldable pub load_named_schema : Disk → Bytes → Option TableSchema
load_named_schema disk table_name = load_one_schema disk (take 511 (table_name ++ codes ".schema"))

-- The loop over the required tables; there are two, below the limit of MAX_TABLES.
unfoldable pub load_schemas : Disk → List FilePath → Option SchemaRegistry
load_schemas disk [] = some []
load_schemas disk (path ∷ paths) =
    maybe (load_one_schema disk path) none
      (λ table. maybe (load_schemas disk paths) none (λ tables. some (table ∷ tables)))

unfoldable pub load_required_schemas : Disk → Option SchemaRegistry
load_required_schemas disk = load_schemas disk (codes "users.schema" ∷ codes "products.schema" ∷ [])

-- The table of a file name: `none` where the name is no schema's.
unfoldable pub table_of_entry : Bytes → Option Bytes
table_of_entry name =
    let len = length name in
    if leb len 7
    then none
    else if not (bytes_eq (drop (len - 7) name) (codes ".schema"))
    then none
    else some (take 255 (take (len - 7) name))

unfoldable pub tables_of_entries : List Bytes → List Bytes
tables_of_entries [] = []
tables_of_entries (name ∷ names) =
    let later = tables_of_entries names in
    maybe (table_of_entry name) later (λ table. table ∷ later)

-- The names that `readdir` gives, or `none` where `opendir` fails.
unfoldable pub list_schema_tables : Option (List Bytes) → Option (List Bytes)
list_schema_tables none = none
list_schema_tables (some names) = some (tables_of_entries names)
