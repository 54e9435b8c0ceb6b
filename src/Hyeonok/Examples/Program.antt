-- ===== src/Hyeonok/Examples/Program.antt =====
-- The whole program on a small disk.
use jungle_week6_coding_sess.Prelude.{
  ℕ, ◌≡◌, refl, List, [], ◌∷◌, true, codes, Option, none, some, Bytes, bytes_eq, if◌then◌else◌,
  take, drop, replicate,
}
use jungle_week6_coding_sess.Libc.Text.{is_space, is_digit, is_alnum, to_lower, char_at}
use jungle_week6_coding_sess.Libc.Disk.{
  open_read, store_file, open_append, append_bytes, c_string, Disk,
}
use jungle_week6_coding_sess.Hyeonok.Text.{
  read_entire_file, skip_spaces, trim_end, trim_in_place, is_identifier_char, match_from,
  match_keyword, span_identifier, parse_identifier_token,
}
use jungle_week6_coding_sess.Hyeonok.Split.{append_statement, split_from, split_sql_statements}
use jungle_week6_coding_sess.Hyeonok.Parser.{
  after_item, column_items, open_parenthesis, parse_column_list, until_quote, parse_string_value,
  span_digits, digits_value, int_word, parse_int_value, parse_value_item, value_items,
  parse_value_list, parse_insert_statement, after_column, select_items, parse_select_list,
  parse_select_statement, parse_query,
}
use jungle_week6_coding_sess.Hyeonok.Schema.{
  expect_char, until_double_quote, parse_json_string, parse_column_type, add_field, parse_pairs,
  parse_column_object, parse_objects, parse_columns_array, parse_member, parse_members,
  parse_schema_json, schema_of, load_schema_for_table,
}
use jungle_week6_coding_sess.Hyeonok.Storage.{
  build_table_data_path, escape, write_escaped_text, row_text, append_storage_row,
  load_storage_text, unescape, parse_escaped_field, parse_fields, parse_storage_row,
}
use jungle_week6_coding_sess.Hyeonok.Executor.{
  find_from, find_schema_column_index, order_values, ordered_texts, append_insert_row,
  execute_insert_statement, all_indexes, find_indexes, build_select_column_indexes, print_texts,
  items_at, print_selected_header, print_selected_row, lines_from, print_lines, print_table,
  execute_select_statement, execute_query, Streams,
}
use jungle_week6_coding_sess.Hyeonok.Program.{
  app_error_message, print_app_error, app_error_from_execute_result, finish, run_single_statement,
  run_statements, process_sql_file, main,
}

abbrev files : Bytes → Option Bytes
files path =
    if bytes_eq path (codes "users.schema")
    then some (
        codes
          "{\"table\": \"users\", \"columns\": [{\"name\": \"id\", \"type\": \"int\"}, {\"type\": \"string\", \"name\": \"name\"}] }")
    else if bytes_eq path (codes "a.sql")
    then some (
        codes
          "insert into users (name, id) values ('Kim; Lee', +7);\nINSERT INTO users (id,name) VALUES (8, '');select name,id from users; select * from nowhere")
    else none

abbrev disk : Disk
disk = record { file = files; can_read = λ p. true; can_write = λ p. true }

run : List Bytes → ℕ × Streams
unfolding take drop replicate bytes_eq is_space is_digit is_alnum to_lower char_at open_read
    store_file open_append append_bytes c_string read_entire_file skip_spaces trim_end trim_in_place
    is_identifier_char match_from match_keyword span_identifier parse_identifier_token
    append_statement split_from split_sql_statements after_item column_items open_parenthesis
    parse_column_list until_quote parse_string_value span_digits digits_value int_word
    parse_int_value parse_value_item value_items parse_value_list parse_insert_statement
    after_column select_items parse_select_list parse_select_statement parse_query expect_char
    until_double_quote parse_json_string parse_column_type add_field parse_pairs parse_column_object
    parse_objects parse_columns_array parse_member parse_members parse_schema_json schema_of
    load_schema_for_table build_table_data_path escape write_escaped_text row_text
    append_storage_row load_storage_text unescape parse_escaped_field parse_fields parse_storage_row
    find_from find_schema_column_index order_values ordered_texts append_insert_row
    execute_insert_statement all_indexes find_indexes build_select_column_indexes print_texts
    items_at print_selected_header print_selected_row lines_from print_lines print_table
    execute_select_statement execute_query app_error_message print_app_error
    app_error_from_execute_result finish run_single_statement run_statements process_sql_file main
run arguments = main arguments disk

hyeonok_output : (run (codes "a.sql" ∷ [])).1.output ≡ codes "name,id\nKim; Lee,+7\n,8\n"
unfolding run
hyeonok_output = refl

hyeonok_errors : (run (codes "a.sql" ∷ [])).1.errors ≡ codes "ERROR: table not found\n"
unfolding run
hyeonok_errors = refl

hyeonok_code : (run (codes "a.sql" ∷ [])).0 ≡ 1
unfolding run
hyeonok_code = refl
