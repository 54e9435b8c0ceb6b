-- ===== src/Dragon/Examples/Program.antt =====
-- The whole program on a small disk.
use jungle_week6_coding_sess.Prelude.{
  ℕ, ◌≡◌, refl, List, [], ◌∷◌, true, codes, Option, none, some, Bytes, bytes_eq, if◌then◌else◌,
  take, drop, replicate,
}
use jungle_week6_coding_sess.Libc.Text.{
  is_space, is_digit, is_alnum, to_lower, char_at, starts_with, strstr, strchr, digits, decimal,
  fgets_from, fgets_lines,
}
use jungle_week6_coding_sess.Libc.Text.Numbers.{skip_space, read_digits, at_most, strtol}
use jungle_week6_coding_sess.Libc.Disk.{
  open_read, store_file, open_append, open_write, append_bytes, c_string, Disk,
}
use jungle_week6_coding_sess.Dragon.Values.{
  compare_numbers, strcmp, compare_values, compare_with_operator, row_matches_where,
}
use jungle_week6_coding_sess.Dragon.Words.{
  skip_spaces, trim_end, trim_in_place, is_identifier_char, starts_with_case, keyword_matches,
  consume_keyword, span_identifier, parse_identifier, quoted_from, parse_quoted_value, span_token,
  parse_value_token, parse_compare_op, parse_where_clause, parse_direction, parse_order_by_clause,
}
use jungle_week6_coding_sess.Dragon.Parser.{
  next_in_list, identifier_items, parse_parenthesized_identifiers, value_items, parse_values_clause,
  parse_limit_clause, find_keyword_from, find_keyword_position, until_comma, all_identifier_chars,
  select_columns, parse_select_columns_text, at_end, parse_insert, parse_delete, next_clause,
  parse_set_clauses, parse_set_clause_list, parse_update, parse_select, without_semicolons,
  parse_sql,
}
use jungle_week6_coding_sess.Dragon.Rows.{
  encode_values, write_encoded_row, parse_next_length, parse_values, is_line_end, parse_encoded_row,
}
use jungle_week6_coding_sess.Dragon.Storage.{
  find_table, find_column_from, find_column_index, build_table_path, set_full_headers, load_lines,
  load_opened, load_full_table, column_indices, values_at, project_result_in_place, file_insert,
  file_read_all_rows, encode_rows, file_replace_rows, file_select_rows, file_storage_create,
}
use jungle_week6_coding_sess.Dragon.Tables.{
  filter_rows_in_place, delete_rows_in_place, should_swap, sort_pass, sort_passes,
  sort_rows_in_place, apply_limit_in_place, project_result_set, resolve_set_columns, set_values,
}
use jungle_week6_coding_sess.Dragon.Executor.{
  print_error, place_values, all_seen, reorder_insert_values, resolve_where_column,
  resolve_order_by_column, print_line, print_lines, print_result_set, selected_rows, select_result,
  execute_select, rows_left, replace, delete_result, execute_delete, updated_row, update_result,
  execute_update, execute_insert, execute_command, Process,
}
use jungle_week6_coding_sess.Dragon.Schema.{
  has_schema_extension, read_file_text, extract_json_string, columns_from, parse_schema_content,
  load_entries, load_schemas,
}
use jungle_week6_coding_sess.Dragon.Program.{
  has_non_whitespace, statement_of, read_statements, run_statement, run_statements, open_failed,
  run_file, run_opened, main,
}

abbrev files : Bytes → Option Bytes
files path =
    if bytes_eq path (codes "./users.schema")
    then some (
        codes
          "{\"table\": \"users\", \"columns\": [{\"name\": \"name\", \"type\": \"string\"}, {\"name\": \"age\", \"type\": \"int\"}]}")
    else if bytes_eq path (codes "a.sql")
    then some (
        codes
          "insert into users (age, name) values (9, 'O''Neil; x'); INSERT INTO users (name,age) VALUES ('Lee',31);update users set age = 10 where name = Lee;select name, age from users where age >= 9 order by age desc limit 5; delete from users where age != 9; select * from users; select * from nowhere")
    else none

abbrev disk : Disk
disk = record { file = files; can_read = λ p. true; can_write = λ p. true }

run : List Bytes → ℕ × Process
unfolding take drop replicate bytes_eq is_space is_digit is_alnum to_lower char_at starts_with
    strstr strchr digits decimal fgets_from fgets_lines skip_space read_digits at_most strtol
    open_read store_file open_append open_write append_bytes c_string compare_numbers strcmp
    compare_values compare_with_operator row_matches_where skip_spaces trim_end trim_in_place
    is_identifier_char starts_with_case keyword_matches consume_keyword span_identifier
    parse_identifier quoted_from parse_quoted_value span_token parse_value_token parse_compare_op
    parse_where_clause parse_direction parse_order_by_clause next_in_list identifier_items
    parse_parenthesized_identifiers value_items parse_values_clause parse_limit_clause
    find_keyword_from find_keyword_position until_comma all_identifier_chars select_columns
    parse_select_columns_text at_end parse_insert parse_delete next_clause parse_set_clauses
    parse_set_clause_list parse_update parse_select without_semicolons parse_sql encode_values
    write_encoded_row parse_next_length parse_values is_line_end parse_encoded_row find_table
    find_column_from find_column_index build_table_path set_full_headers load_lines load_opened
    load_full_table column_indices values_at project_result_in_place file_insert file_read_all_rows
    encode_rows file_replace_rows file_select_rows file_storage_create filter_rows_in_place
    delete_rows_in_place should_swap sort_pass sort_passes sort_rows_in_place apply_limit_in_place
    project_result_set resolve_set_columns set_values print_error place_values all_seen
    reorder_insert_values resolve_where_column resolve_order_by_column print_line print_lines
    print_result_set selected_rows select_result execute_select rows_left replace delete_result
    execute_delete updated_row update_result execute_update execute_insert execute_command
    has_schema_extension read_file_text extract_json_string columns_from parse_schema_content
    load_entries load_schemas has_non_whitespace statement_of read_statements run_statement
    run_statements open_failed run_file run_opened main
run arguments =
    main arguments (some (codes "users.schema" ∷ codes "a.sql" ∷ [])) (some (codes ".")) disk

dragon_output :
    (run (codes "a.sql" ∷ [])).1.output
    ≡ codes "name,age\nLee,10\nO'Neil; x,9\nname,age\nO'Neil; x,9\n"
unfolding run
dragon_output = refl

dragon_errors : (run (codes "a.sql" ∷ [])).1.errors ≡ codes "ERROR: table not found\n"
unfolding run
dragon_errors = refl

dragon_code : (run (codes "a.sql" ∷ [])).0 ≡ 1
unfolding run
dragon_code = refl
