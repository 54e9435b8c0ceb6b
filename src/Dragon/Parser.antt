-- ===== src/Dragon/Parser.antt =====
-- parser.c: the statements. The counts of the lists are at most MAX_COLUMNS, MAX_VALUES and
-- MAX_SET_CLAUSES, all 32; `room` is the number of items left, which ends the loops.
use jungle_week6_coding_sess.Prelude.{
  ℕ, zero, suc, Bool, true, false, not, ◌&&◌, ◌||◌, Option, none, some, Bytes, List, [], ◌∷◌, ◌==◌,
  ltb, leb, if◌then◌else◌, length, drop, codes, bytes_eq,
}
use jungle_week6_coding_sess.Prelude.Chain.{◌>>=◌, ◌>>◌, guard}
use jungle_week6_coding_sess.Libc.Text.{is_digit, char_at}
use jungle_week6_coding_sess.Libc.Text.Numbers.{read_digits}
use jungle_week6_coding_sess.Dragon.Values.{is_empty}
use jungle_week6_coding_sess.Dragon.Types.{
  cmd_none, cmd_insert, cmd_select, cmd_delete, cmd_update, SetClause, Command,
}
use jungle_week6_coding_sess.Dragon.Words.{
  skip_spaces, trim_in_place, is_identifier_char, keyword_matches, consume_keyword,
  parse_identifier, parse_value_token, parse_where_clause, parse_order_by_clause,
}

abbrev pub max_items : ℕ
max_items = 32

-- The end of a round of a list in parentheses: behind a comma the list goes on, behind the closing
-- parenthesis it ends.
unfoldable pub next_in_list {ℓ} :
    {A : Type ℓ} → A → Bytes → Option (List A × Bytes) → Option (List A × Bytes)
next_in_list item text more =
    if char_at text == b','
    then (do (items, after) ← more; some (item ∷ items, after))
    else if char_at text == b')'
    then some (item ∷ [], drop 1 text)
    else none

unfoldable pub identifier_items : ℕ → Bytes → Option (List Bytes × Bytes)
identifier_items zero cursor = none
identifier_items (suc room) cursor = do
  (item, text) ← parse_identifier cursor
  let text = skip_spaces text
  next_in_list item text (identifier_items room (drop 1 text))

-- An empty item is no identifier, so the test for `)` and the end is the one for an identifier.
unfoldable pub parse_parenthesized_identifiers : Bytes → Option (List Bytes × Bytes)
parse_parenthesized_identifiers cursor =
    let text = skip_spaces cursor in
    if not (char_at text == b'(') then none else identifier_items max_items (drop 1 text)

unfoldable pub value_items : ℕ → Bytes → Option (List Bytes × Bytes)
value_items zero cursor = none
value_items (suc room) cursor =
    let start = skip_spaces cursor in
    let item = (do
      (value, text) ← parse_value_token start
      let text = skip_spaces text
      next_in_list value text (value_items room (drop 1 text))) in
    if char_at start == b')' || is_empty start then none else item

unfoldable pub parse_values_clause : Bytes → Option (List Bytes × Bytes)
parse_values_clause cursor =
    let text = skip_spaces cursor in
    if not (char_at text == b'(') then none else value_items max_items (drop 1 text)

-- The number is below 2^31: a larger one overflows an int, which C leaves undefined.
unfoldable pub parse_limit_clause : Bytes → Option (Option ℕ × Bytes)
parse_limit_clause cursor = elim (consume_keyword cursor (codes "LIMIT")) [
  | none ↦ some (none, cursor)
  | some text ↦
      let start = skip_spaces text in
      let (limit_count, after) = read_digits 0 start in
      if not (is_digit (char_at start)) then none else some (some limit_count, after)
]

-- The text before the first occurrence of the keyword that starts a word, and the text from there.
-- `inside` says that the byte before is one of an identifier.
unfoldable pub find_keyword_from : Bool → Bytes → Bytes → Option (Bytes × Bytes)
find_keyword_from inside [] keyword = none
find_keyword_from inside (c ∷ rest) keyword =
    let later : Option (Bytes × Bytes) = (do
      (before, found) ← find_keyword_from (is_identifier_char c) rest keyword
      some (c ∷ before, found)) in
    if not inside && keyword_matches (c ∷ rest) keyword then some ([], c ∷ rest) else later

unfoldable pub find_keyword_position : Bytes → Bytes → Option (Bytes × Bytes)
find_keyword_position text keyword = find_keyword_from false text keyword

-- The bytes before the next comma, and the text behind the comma, if there is one.
unfoldable pub until_comma : Bytes → Bytes × Option Bytes
until_comma [] = ([], none)
until_comma (c ∷ rest) =
    let (token, after) = until_comma rest in
    if c == b',' then ([], some rest) else (c ∷ token, after)

unfoldable pub all_identifier_chars : Bytes → Bool
all_identifier_chars [] = true
all_identifier_chars (c ∷ rest) =
    if not (is_identifier_char c) then false else all_identifier_chars rest

-- The loop of parse_select_columns_text: it ends behind a comma at the end of the text, too.
unfoldable pub select_columns : ℕ → Bytes → Option (List Bytes)
select_columns zero [] = some []
select_columns zero (c ∷ rest) = none
select_columns (suc room) [] = some []
select_columns (suc room) (c ∷ rest) =
    let (raw, after) = until_comma (c ∷ rest) in
    let token = trim_in_place raw in
    let next : Option (List Bytes) = elim after [
      | none ↦ some []
      | some text ↦ select_columns room text
    ] in
    let item = (do columns ← next; some (token ∷ columns)) in
    if leb 256 (length raw)
    then none
    else if is_empty token || not (all_identifier_chars token)
    then none
    else item

-- `is_select_all`, and the columns.
unfoldable pub parse_select_columns_text : Bytes → Option (Bool × List Bytes)
parse_select_columns_text text = if bytes_eq text (codes "*") then some (true, []) else (do
  columns ← select_columns max_items text
  guard (ltb 0 (length columns))
  some (false, columns))

-- The end of a statement: a semicolon or none, and nothing else.
unfoldable pub at_end : Bytes → Bool
at_end cursor =
    let text = skip_spaces cursor in
    is_empty (skip_spaces (if char_at text == b';' then drop 1 text else text))

-- `memset(cmd, 0, sizeof(*cmd))`
abbrev pub empty_command : Command
empty_command = record {
  type = cmd_none;
  table_name = [];
  insert_columns = [];
  values = [];
  columns = [];
  is_select_all = false;
  where_condition = none;
  order_by = none;
  limit_count = none;
  set_clauses = [];
}

unfoldable pub parse_insert : Bytes → Option Command
parse_insert sql = do
  cursor ← consume_keyword sql (codes "INSERT")
  cursor ← consume_keyword cursor (codes "INTO")
  (table_name, cursor) ← parse_identifier cursor
  (columns, cursor) ← parse_parenthesized_identifiers cursor
  cursor ← consume_keyword cursor (codes "VALUES")
  (values, cursor) ← parse_values_clause cursor
  guard (at_end cursor)
  some (record empty_command {
    type = cmd_insert;
    table_name = table_name;
    insert_columns = columns;
    values = values;
  })

unfoldable pub parse_delete : Bytes → Option Command
parse_delete sql = do
  cursor ← consume_keyword sql (codes "DELETE")
  cursor ← consume_keyword cursor (codes "FROM")
  (table_name, cursor) ← parse_identifier cursor
  (condition, cursor) ← parse_where_clause cursor
  guard (at_end cursor)
  some (record empty_command {
    type = cmd_delete;
    table_name = table_name;
    where_condition = condition;
  })

-- The end of a round of parse_set_clause_list.
unfoldable pub next_clause :
    SetClause → Bytes → Option (List SetClause × Bytes) → Option (List SetClause × Bytes)
next_clause clause text more =
    if char_at text == b','
    then (do (clauses, after) ← more; some (clause ∷ clauses, after))
    else some (clause ∷ [], text)

unfoldable pub parse_set_clauses : ℕ → Bytes → Option (List SetClause × Bytes)
parse_set_clauses zero cursor = none
parse_set_clauses (suc room) cursor = do
  (column, text) ← parse_identifier cursor
  let text = skip_spaces text
  guard (char_at text == b'=')
  (value, text) ← parse_value_token (drop 1 text)
  let text = skip_spaces text
  next_clause (record { column = column; value = value }) text
      (parse_set_clauses room (drop 1 text))

unfoldable pub parse_set_clause_list : Bytes → Option (List SetClause × Bytes)
parse_set_clause_list cursor = parse_set_clauses max_items cursor

unfoldable pub parse_update : Bytes → Option Command
parse_update sql = do
  cursor ← consume_keyword sql (codes "UPDATE")
  (table_name, cursor) ← parse_identifier cursor
  cursor ← consume_keyword cursor (codes "SET")
  (clauses, cursor) ← parse_set_clause_list cursor
  (condition, cursor) ← parse_where_clause cursor
  guard (at_end cursor)
  some (record empty_command {
    type = cmd_update;
    table_name = table_name;
    set_clauses = clauses;
    where_condition = condition;
  })

unfoldable pub parse_select : Bytes → Option Command
parse_select sql = do
  cursor ← consume_keyword sql (codes "SELECT")
  (columns_text, cursor) ← find_keyword_position (skip_spaces cursor) (codes "FROM")
  guard (not (is_empty columns_text) && ltb (length columns_text) 1024)
  (select_all, columns) ← parse_select_columns_text (trim_in_place columns_text)
  cursor ← consume_keyword cursor (codes "FROM")
  (table_name, cursor) ← parse_identifier cursor
  (condition, cursor) ← parse_where_clause cursor
  (order, cursor) ← parse_order_by_clause cursor
  (limit, cursor) ← parse_limit_clause cursor
  guard (at_end cursor)
  some (record empty_command {
    type = cmd_select;
    table_name = table_name;
    columns = columns;
    is_select_all = select_all;
    where_condition = condition;
    order_by = order;
    limit_count = limit;
  })

-- The text without the semicolons at its end.
unfoldable pub without_semicolons : Bytes → Bytes
without_semicolons [] = []
without_semicolons (c ∷ rest) =
    let trimmed = without_semicolons rest in
    if is_empty trimmed && c == b';' then [] else c ∷ trimmed

-- `none` is -1: an invalid query.
unfoldable pub parse_sql : Bytes → Option Command
parse_sql sql =
    let working = trim_in_place (without_semicolons (trim_in_place sql)) in
    if leb 8192 (length sql)
    then none
    else if is_empty working
    then some empty_command
    else if keyword_matches working (codes "INSERT")
    then parse_insert working
    else if keyword_matches working (codes "SELECT")
    then parse_select working
    else if keyword_matches working (codes "DELETE")
    then parse_delete working
    else if keyword_matches working (codes "UPDATE")
    then parse_update working
    else none
