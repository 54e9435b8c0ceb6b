-- ===== src/Jiun/Parser.antt =====
-- domain/parser.c: INSERT and SELECT.
pub mod Indexes
pub mod Plan
use jungle_week6_coding_sess.Prelude.{
  ℕ, zero, suc, ◌+◌, Bool, true, false, not, ◌&&◌, ◌||◌, Option, none, some, Bytes, List, [], ◌∷◌,
  ◌++◌, ◌==◌, if◌then◌else◌, length, take, drop, replicate, set, get_or, maybe, map, codes,
}
use jungle_week6_coding_sess.Libc.Text.{is_space, to_lower, char_at}
use jungle_week6_coding_sess.Jiun.Types.{
  Column, TableSchema, SchemaRegistry, InsertPlan, SelectPlan, Message, invalid_query,
  table_not_found, count_mismatch, Result, ok, err, ◌>>=◌, ◌>>◌, guard, want,
}
use jungle_week6_coding_sess.Jiun.Text.{
  ci_equal, ci_n_equal, is_empty, skip_ws, rtrim_inplace, parse_identifier, consume_keyword,
  is_integer_literal,
}
use jungle_week6_coding_sess.Jiun.Values.{Value, split_csv_like_ident_list, split_values_list}

-- find_table and find_col_index of domain/schema.c.
unfoldable pub find_table : SchemaRegistry → Bytes → Option TableSchema
find_table [] name = none
find_table (table ∷ tables) name =
    let later = find_table tables name in if ci_equal table.name name then some table else later

unfoldable pub find_col_from : ℕ → List Column → Bytes → Option ℕ
find_col_from i [] col_name = none
find_col_from i (column ∷ columns) col_name =
    let later = find_col_from (suc i) columns col_name in
    if ci_equal column.name col_name then some i else later

unfoldable pub find_col_index : TableSchema → Bytes → Option ℕ
find_col_index schema col_name = find_col_from 0 schema.columns col_name

-- The text up to the first closing parenthesis, and the rest behind it.
unfoldable pub column_segment : Bytes → Option (Bytes × Bytes)
column_segment [] = none
column_segment (c ∷ rest) =
    let later : Option (Bytes × Bytes) = elim (column_segment rest) [
      | none ↦ none
      | some (cols, after) ↦ some (c ∷ cols, after)
    ] in
    if c == b')' then some ([], rest) else later

-- The same outside quotes. In quotes the pair `''` is stepped over.
unfoldable pub value_segment : Bool → Bytes → Option (Bytes × Bytes)
value_segment in_quote [] = none
value_segment in_quote (c ∷ []) = if c == b')' && not in_quote then some ([], []) else none
value_segment in_quote (c ∷ d ∷ rest) =
    let pair : Option (Bytes × Bytes) = elim (value_segment in_quote rest) [
      | none ↦ none
      | some (vals, after) ↦ some (c ∷ d ∷ vals, after)
    ] in
    let toggled : Option (Bytes × Bytes) = elim (value_segment (not in_quote) (d ∷ rest)) [
      | none ↦ none
      | some (vals, after) ↦ some (c ∷ vals, after)
    ] in
    let same : Option (Bytes × Bytes) = elim (value_segment in_quote (d ∷ rest)) [
      | none ↦ none
      | some (vals, after) ↦ some (c ∷ vals, after)
    ] in
    if c == b'\'' && d == b'\'' && in_quote
    then pair
    else if c == b'\''
    then toggled
    else if c == b')' && not in_quote
    then some ([], d ∷ rest)
    else same

-- `if (*p != c) return 0; p++;` after white space.
unfoldable pub expect : ℕ → Bytes → Result Bytes
expect c text =
    let p = skip_ws text in if not (char_at p == c) then err invalid_query else ok (drop 1 p)

-- The type of the column at an index below the number of columns.
unfoldable pub type_at : List Column → ℕ → Bytes
type_at [] i = []
type_at (column ∷ columns) zero = column.type
type_at (column ∷ columns) (suc i) = type_at columns i

-- `ci_equal(type, "int")` and a value that is no integer literal.
unfoldable pub is_bad_int : Bytes → Value → Bool
is_bad_int type value =
    ci_equal type (codes "int") && (value.quoted || not (is_integer_literal value.text))

-- The loop over the items: the values and the marks of the columns so far.
unfoldable pub assign_items :
    TableSchema → List Bytes → List Value → List Bytes → List Bool → Result (List Bytes × List Bool)
assign_items schema (col ∷ cols) (value ∷ vals) values assigned = elim (find_col_index schema col) [
  | none ↦ err invalid_query
  | some idx ↦
      let rest =
        assign_items schema cols vals (set values idx (take 4095 value.text))
          (set assigned idx true) in
      if get_or assigned idx false
      then err invalid_query
      else if is_bad_int (type_at schema.columns idx) value
      then err invalid_query
      else rest
]
assign_items schema _ _ values assigned = ok (values, assigned)

-- The last loop, over the marks of the columns.
unfoldable pub all_assigned : List Bool → Bool
all_assigned [] = true
all_assigned (mark ∷ marks) = if not mark then false else all_assigned marks

-- From the two lists of items on.
unfoldable pub insert_plan : TableSchema → List Bytes → List Value → Result InsertPlan
insert_plan schema cols vals = do
  let count = length schema.columns
  guard (length cols == length vals && length cols == count) count_mismatch
  (values, assigned) ← assign_items schema cols vals (replicate count []) (replicate count false)
  guard (all_assigned assigned) count_mismatch
  ok (record { schema = schema; values = values })

unfoldable pub parse_insert : Bytes → SchemaRegistry → Result InsertPlan
parse_insert stmt reg = do
  p ← want (consume_keyword stmt (codes "INSERT")) invalid_query
  p ← want (consume_keyword p (codes "INTO")) invalid_query
  (table, p) ← want (parse_identifier p 256) invalid_query
  schema ← want (find_table reg table) table_not_found
  p ← expect b'(' p
  (cols, p) ← want (column_segment p) invalid_query
  p ← want (consume_keyword p (codes "VALUES")) invalid_query
  p ← expect b'(' p
  (vals, p) ← want (value_segment false p) invalid_query
  guard (is_empty (skip_ws p)) invalid_query
  col_items ← want (split_csv_like_ident_list cols) invalid_query
  val_items ← want (split_values_list vals) invalid_query
  insert_plan schema col_items val_items

-- `from` in any case, before white space or the end.
unfoldable pub at_from : Bytes → Bool
at_from p =
    let q = drop 4 p in ci_n_equal p (codes "from") 4 && (is_empty q || is_space (char_at q))

-- The text before the first such `from`, and the text from there on.
unfoldable pub before_from : Bytes → Option (Bytes × Bytes)
before_from [] = none
before_from (c ∷ rest) =
    let later : Option (Bytes × Bytes) = elim (before_from rest) [
      | none ↦ none
      | some (cols, p) ↦ some (c ∷ cols, p)
    ] in
    if at_from (c ∷ rest) then some ([], c ∷ rest) else later

-- `*`, or the list of columns; `none` is `select_all`.
unfoldable pub selected_list : Bytes → Result (Option (List Bytes) × Bytes)
selected_list text = if char_at text == b'*' then ok (none, drop 1 text) else (do
  (cols, after) ← want (before_from text) invalid_query
  items ← want (split_csv_like_ident_list cols) invalid_query
  ok (some items, after))

-- The indexes 0, 1, ... below `n`, from `i` on.
unfoldable pub indexes : ℕ → ℕ → List ℕ
indexes i zero = []
indexes i (suc n) = i ∷ indexes (suc i) n

unfoldable pub column_indexes : TableSchema → List Bytes → Result (List ℕ)
column_indexes schema [] = ok []
column_indexes schema (col ∷ cols) = do
  idx ← want (find_col_index schema col) invalid_query
  rest ← column_indexes schema cols
  ok (idx ∷ rest)

unfoldable pub select_indexes : TableSchema → Option (List Bytes) → Result (List ℕ)
select_indexes schema none = ok (indexes 0 (length schema.columns))
select_indexes schema (some cols) = column_indexes schema cols

unfoldable pub parse_select : Bytes → SchemaRegistry → Result SelectPlan
parse_select stmt reg = do
  p ← want (consume_keyword stmt (codes "SELECT")) invalid_query
  (cols, p) ← selected_list (skip_ws p)
  p ← want (consume_keyword p (codes "FROM")) invalid_query
  (table, p) ← want (parse_identifier p 256) invalid_query
  guard (is_empty (skip_ws p)) invalid_query
  schema ← want (find_table reg table) table_not_found
  selected ← select_indexes schema cols
  ok (record { schema = schema; selected_idx = selected })
