-- ===== src/Jihyun/Sql/Parse.antt =====
-- parse_statement of parser.c and its two parsers.
use jungle_week6_coding_sess.Prelude.{
  Bool, true, false, Bytes, Option, none, some, [], ◌+◌, ◌==◌, if◌then◌else◌, length, take, drop,
  codes, bytes_eq, List, ℕ,
}
use jungle_week6_coding_sess.Jihyun.Status.{invalid_query}
use jungle_week6_coding_sess.Jihyun.Text.{
  skip_spaces, trim_copy_range, case_starts_with, find_keyword_outside_quotes,
}
use jungle_week6_coding_sess.Jihyun.Sql.Ast.{
  Statement, insert_stmt, select_stmt, Parsed, done, fail, ◌>>=◌, ◌>>◌, guard,
}
use jungle_week6_coding_sess.Jihyun.Sql.Scan.{
  split_comma_list, take_items, extract_identifier, extract_parenthesized_segment,
}

unfoldable pub parse_insert_statement : Bytes → Parsed Statement
parse_insert_statement sql_text = do
  let into = skip_spaces (drop 6 sql_text)
  guard (case_starts_with into (codes "into")) invalid_query
  (table_name, cursor) ← extract_identifier (drop 4 into)
  (column_segment, cursor') ← extract_parenthesized_segment cursor
  columns ← take_items (split_comma_list column_segment false)
  let values_word = skip_spaces cursor'
  guard (case_starts_with values_word (codes "values")) invalid_query
  (value_segment, end) ← extract_parenthesized_segment (drop 6 values_word)
  values ← take_items (split_comma_list value_segment true)
  guard (length (skip_spaces end) == 0) invalid_query
  done (insert_stmt (record { table_name = table_name; columns = columns; values = values }))

-- `strcmp(select_segment, "*") == 0`, or the list of columns.
unfoldable pub selected_columns : Bytes → Parsed (Bool × List Bytes)
selected_columns segment =
    if bytes_eq segment (codes "*")
    then done (true, [])
    else do columns ← take_items (split_comma_list segment false); done (false, columns)

-- From the position of `from`, an index into the text after `select`.
unfoldable pub parse_select_at : Bytes → Option ℕ → Parsed Statement
parse_select_at cursor none = fail invalid_query
parse_select_at cursor (some from_keyword) = do
  (select_all, columns) ← selected_columns (trim_copy_range (take from_keyword cursor))
  (table_name, end) ← extract_identifier (drop (from_keyword + 4) cursor)
  guard (length (skip_spaces end) == 0) invalid_query
  done
      (select_stmt (record { table_name = table_name; select_all = select_all; columns = columns }))

unfoldable pub parse_select_statement : Bytes → Parsed Statement
parse_select_statement sql_text =
    let cursor = drop 6 sql_text in
    parse_select_at cursor (find_keyword_outside_quotes cursor (codes "from"))

unfoldable pub parse_statement : Bytes → Parsed Statement
parse_statement sql_text =
    let cursor = skip_spaces sql_text in
    if case_starts_with cursor (codes "insert")
    then parse_insert_statement cursor
    else if case_starts_with cursor (codes "select")
    then parse_select_statement cursor
    else fail invalid_query
