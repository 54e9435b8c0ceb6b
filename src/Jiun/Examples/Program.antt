-- ===== src/Jiun/Examples/Program.antt =====
-- The whole program on a small disk.
use jungle_week6_coding_sess.Prelude.{
  ◌≡◌, refl, List, [], ◌∷◌, true, codes, Option, none, some, Bytes, bytes_eq, if◌then◌else◌, take,
  drop, replicate, ℕ,
}
use jungle_week6_coding_sess.Libc.Text.{
  is_space, is_digit, is_alpha, is_alnum, to_lower, char_at, starts_with, strstr, strchr, str_less,
  digits, decimal, tokens_from, tokens, fgets_from, fgets_lines,
}
use jungle_week6_coding_sess.Libc.Disk.{
  open_read, store_file, open_update, open_append, write_at, append_bytes, read_at, c_string, Disk,
}
use jungle_week6_coding_sess.Jiun.Text.{
  ci_equal, ci_n_equal, skip_ws, rtrim_inplace, is_word, span_word, parse_identifier,
  consume_keyword, trim_copy, all_digits, is_unsigned_literal, is_integer_literal,
}
use jungle_week6_coding_sess.Jiun.Values.{
  next_item, split_idents, split_csv_like_ident_list, quoted_value, until_comma, read_value,
  split_values, split_values_list,
}
use jungle_week6_coding_sess.Jiun.Parser.{
  find_table, find_col_from, find_col_index, column_segment, value_segment, expect, type_at,
  is_bad_int, assign_items, all_assigned, insert_plan, parse_insert, at_from, before_from,
  selected_list, indexes, column_indexes, select_indexes, parse_select,
}
use jungle_week6_coding_sess.Jiun.Split.{
  push_statement, split_from, split_statements, is_insert_stmt, is_select_stmt,
}
use jungle_week6_coding_sess.Jiun.Schema.{
  read_entire_file, before_double_quote, extract_from, extract_json_string_after_key, columns_from,
  result_of, schema_of, load_one_schema, load_named_schema, load_schemas, load_required_schemas,
  table_of_entry, tables_of_entries, list_schema_tables,
}
use jungle_week6_coding_sess.Jiun.Cells.{
  escape_of, encode_from, encode_cell, unescape_byte, decode_from, decode_cell, split_tab_line,
  encode_row,
}
use jungle_week6_coding_sess.Jiun.Storage.{
  data_path, execute_insert, keep_rows, rows_of, print_fields, pick, print_rows, print_selected,
  execute_select_with_options,
}
use jungle_week6_coding_sess.Jiun.Processor.{
  run_insert, run_select, execute_sql_statement, print_error, run_all, execute_sql_text,
  process_sql_file, Session,
}
use jungle_week6_coding_sess.Jiun.Interactive.{
  print_banner, print_help, insert_sorted, sort_texts, table_lines, print_tables, column_lines,
  print_schema_for_table, handle_meta_command, print_statement_success, run_sql_statement,
  run_sql_statements, run_sql_line, interact, run_interactive_mode, run_cli, main,
}

-- The files of a program with the two tables that it requires.
abbrev files : Bytes → Option Bytes
files path =
    if bytes_eq path (codes "users.schema")
    then some (
        codes
          "{\"table\":\"users\",\"columns\":[{\"name\":\"id\",\"type\":\"int\"},{\"name\":\"name\",\"type\":\"string\"}]}")
    else if bytes_eq path (codes "products.schema")
    then some (codes "{\"table\":\"products\",\"columns\":[{\"name\":\"id\",\"type\":\"int\"}]}")
    else if bytes_eq path (codes "a.sql")
    then some (
        codes
          "insert into Users (name, id) values ('O''Neil; x', 7); select name,id from users; select * from nowhere")
    else none

abbrev disk : Disk
disk = record { file = files; can_read = λ p. true; can_write = λ p. true }

run : List Bytes → Bytes → ℕ × Session
unfolding take drop replicate bytes_eq is_space is_digit is_alpha is_alnum to_lower char_at
    starts_with strstr strchr str_less digits decimal tokens_from tokens fgets_from fgets_lines
    open_read store_file open_update open_append write_at append_bytes read_at c_string ci_equal
    ci_n_equal skip_ws rtrim_inplace is_word span_word parse_identifier consume_keyword trim_copy
    all_digits is_unsigned_literal is_integer_literal next_item split_idents
    split_csv_like_ident_list quoted_value until_comma read_value split_values split_values_list
    find_table find_col_from find_col_index column_segment value_segment expect type_at is_bad_int
    assign_items all_assigned insert_plan parse_insert at_from before_from selected_list indexes
    column_indexes select_indexes parse_select push_statement split_from split_statements
    is_insert_stmt is_select_stmt read_entire_file before_double_quote extract_from
    extract_json_string_after_key columns_from result_of schema_of load_one_schema load_named_schema
    load_schemas load_required_schemas table_of_entry tables_of_entries list_schema_tables escape_of
    encode_from encode_cell unescape_byte decode_from decode_cell split_tab_line encode_row
    data_path execute_insert keep_rows rows_of print_fields pick print_rows print_selected
    execute_select_with_options run_insert run_select execute_sql_statement print_error run_all
    execute_sql_text process_sql_file print_banner print_help insert_sorted sort_texts table_lines
    print_tables column_lines print_schema_for_table handle_meta_command print_statement_success
    run_sql_statement run_sql_statements run_sql_line interact run_interactive_mode run_cli main
run arguments input = main arguments none input disk

run_file : (run (codes "a.sql" ∷ []) []).1.output ≡ codes "name,id\nO'Neil; x,7\n"
unfolding run
run_file = refl

run_file_errors : (run (codes "a.sql" ∷ []) []).1.errors ≡ codes "ERROR: table not found\n"
unfolding run
run_file_errors = refl

run_file_code : (run (codes "a.sql" ∷ []) []).0 ≡ 1
unfolding run
run_file_code = refl

-- A row with an empty value is inserted without a message.
run_empty_value :
    (run [] (codes "insert into users (id,name) values (1,'')\nselect * from users\n")).1.errors
    ≡ []
unfolding run
run_empty_value = refl
