-- ===== src/Jihyun/Examples/Program.antt =====
-- The whole program on a small disk.
use jungle_week6_coding_sess.Prelude.{
  ◌≡◌, refl, List, [], ◌∷◌, true, codes, Option, none, some, Bytes, bytes_eq, if◌then◌else◌, take,
  drop, replicate,
}
use jungle_week6_coding_sess.Prelude.Words.{u32_bytes, read_u32, overwrite}
use jungle_week6_coding_sess.Jihyun.Status.{sql_status_message}
use jungle_week6_coding_sess.Jihyun.Text.{
  is_space, is_alnum, to_lower, skip_spaces, trim_right, trim_copy_range, trim_inplace,
  leading_spaces, end_from, lowercase_inplace, char_difference, char_at, case_cmp, is_zero,
  case_equal, case_starts_with, is_blank_string, is_identifier_boundary, in_quotes, at_quote,
  next_quoting, starts_mid_word, keyword_here, find_keyword_from, find_keyword_outside_quotes,
}
use jungle_week6_coding_sess.Jihyun.Sql.Scan.{
  is_identifier_char, normalize_identifier, unescape, is_quoted, decode_value_token, is_nil,
  finish_token, split_comma_from, split_comma_list, take_items, span_identifier, extract_identifier,
  scan_segment, open_segment, extract_parenthesized_segment, push_statement, split_sql_from,
  split_sql_statements,
}
use jungle_week6_coding_sess.Jihyun.Sql.Parse.{
  parse_insert_statement, selected_columns, parse_select_at, parse_select_statement,
  parse_statement,
}
use jungle_week6_coding_sess.Jihyun.Page.{
  zero_page, page_init, page_can_store_record, page_append_record, page_cursor_init,
  page_cursor_next, page_bytes, page_of_bytes,
}
use jungle_week6_coding_sess.Libc.Disk.{
  open_read, store_file, open_update, open_append, write_at, read_at, c_string, Disk, FilePath,
}
use jungle_week6_coding_sess.Jihyun.Schema.{
  text_of, starts_with, strstr, strchr, find_json_key_from, find_json_key, extract_string_after_key,
  read_column, read_columns, parse_schema, build_path, schema_load, find_column_from,
  schema_find_column,
}
use jungle_week6_coding_sess.Jihyun.Cache.{
  zero_frame, buffer_cache_init, modify_at, modify_frame, frame_at, frame_matches, page_offset,
  write_frame, flush_opened, flush_frame, find_index, touch, find_frame, free_index, oldest_from,
  oldest, choose_victim, assign_frame, read_over, load_into, load_missed, buffer_cache_load_page,
  create_missed, buffer_cache_create_page, buffer_cache_mark_dirty, flush_from,
  buffer_cache_flush_file, buffer_cache_flush_all, count_dirty, buffer_cache_get_stats,
}
use jungle_week6_coding_sess.Jihyun.Storage.{
  build_table_path, ensured, ensure_table_file, pages_of, get_page_count, serialize_fields,
  total_length, serialize_row, deserialize_fields, deserialize_row, mark_dirty, target_page,
  page_with_room, append_to, storage_insert_row, visit_records, visit_page, scan_pages,
  storage_scan_rows, storage_flush,
}
use jungle_week6_coding_sess.Jihyun.Executor.{
  error_line, write_error, report, assign_values, build_insert_values, indexes_from, find_columns,
  build_select_columns, join_fields, print_line, column_name_at, print_selected_row, insert_ordered,
  execute_insert, print_rows, execute_select, execute_statement,
}
use jungle_week6_coding_sess.Jihyun.Program.{
  read_sql_file, print_error, print_failure, run_parsed, run_statements, digits, decimal,
  stats_line, write_cache_stats_file, flush_context, run_program, start, main, Exit, exited,
  undefined,
}

-- The program with all that it calls, to be run.
pub run_main : List FilePath → Option FilePath → Disk → Exit
unfolding take drop bytes_eq replicate u32_bytes read_u32 overwrite sql_status_message is_space
    is_alnum to_lower skip_spaces trim_right trim_copy_range leading_spaces end_from trim_inplace
    lowercase_inplace char_difference char_at case_cmp is_zero case_equal case_starts_with
    is_blank_string is_identifier_boundary in_quotes at_quote next_quoting starts_mid_word
    keyword_here find_keyword_from find_keyword_outside_quotes is_identifier_char
    normalize_identifier unescape is_quoted decode_value_token is_nil finish_token split_comma_from
    split_comma_list take_items span_identifier extract_identifier scan_segment open_segment
    extract_parenthesized_segment push_statement split_sql_from split_sql_statements
    parse_insert_statement selected_columns parse_select_at parse_select_statement parse_statement
    zero_page page_init page_can_store_record page_append_record page_cursor_init page_cursor_next
    page_bytes page_of_bytes open_read store_file open_update open_append write_at read_at c_string
    text_of starts_with strstr strchr find_json_key_from find_json_key extract_string_after_key
    read_column read_columns parse_schema build_path schema_load find_column_from schema_find_column
    zero_frame buffer_cache_init modify_at modify_frame frame_at frame_matches page_offset
    write_frame flush_opened flush_frame find_index touch find_frame free_index oldest_from oldest
    choose_victim assign_frame read_over load_into load_missed buffer_cache_load_page create_missed
    buffer_cache_create_page buffer_cache_mark_dirty flush_from buffer_cache_flush_file
    buffer_cache_flush_all count_dirty buffer_cache_get_stats build_table_path ensured
    ensure_table_file pages_of get_page_count serialize_fields total_length serialize_row
    deserialize_fields deserialize_row mark_dirty target_page page_with_room append_to
    storage_insert_row visit_records visit_page scan_pages storage_scan_rows storage_flush
    error_line write_error report assign_values build_insert_values indexes_from find_columns
    build_select_columns join_fields print_line column_name_at print_selected_row insert_ordered
    execute_insert print_rows execute_select execute_statement read_sql_file print_error
    print_failure run_parsed run_statements digits decimal stats_line write_cache_stats_file
    flush_context run_program start main
run_main = main

abbrev schema_text : Bytes
schema_text =
    codes
      "{\"table\": \"users\", \"columns\": [{\"name\": \"name\", \"type\": \"string\"}, {\"name\": \"age\", \"type\": \"int\"}]}"

abbrev sql_text : Bytes
sql_text =
    codes
      "insert into users (age, name) values (25, 'Kim, A');insert into users (name,age) values ('Lee', 22); select name from users; select * from nobody"

disk : Disk
unfolding bytes_eq
disk = record {
  file = λ p.
      if bytes_eq p (codes "./users.schema")
      then some schema_text
      else if bytes_eq p (codes "in.sql")
      then some sql_text
      else none;
  can_read = λ _. true;
  can_write = λ _. true;
}

abbrev output : Exit → Bytes × Bytes
output (exited n s) = (s.output_stream, s.error_stream)
output (undefined s) = ([], [])

run :
    output (run_main (codes "in.sql" ∷ []) none disk)
    ≡ (codes "name\nKim, A\nLee\n", codes "ERROR: table not found\n")
unfolding run_main disk
run = refl
