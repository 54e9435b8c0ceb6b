-- ===== src/Jihyun/Examples/Sql.antt =====
-- The parser on small inputs.
use jungle_week6_coding_sess.Prelude.{
  ◌≡◌, refl, List, [], ◌∷◌, true, codes, take, drop, bytes_eq, Bytes,
}
use jungle_week6_coding_sess.Prelude.Words.{overwrite}
use jungle_week6_coding_sess.Jihyun.Status.{SqlStatus, ok, invalid_query}
use jungle_week6_coding_sess.Jihyun.Sql.Ast.{
  Parsed, Statement, insert_stmt, select_stmt, done, fail, double_free,
}
use jungle_week6_coding_sess.Jihyun.Text.{
  is_space, is_alnum, to_lower, skip_spaces, trim_right, trim_copy_range, trim_inplace,
  leading_spaces, end_from, lowercase_inplace, char_difference, char_at, case_cmp, is_zero,
  case_equal, case_starts_with, is_blank_string, is_identifier_boundary, in_quotes, at_quote,
  next_quoting, starts_mid_word, keyword_here, find_keyword_from, find_keyword_outside_quotes,
}
use jungle_week6_coding_sess.Jihyun.Sql.Scan.{
  is_identifier_char, normalize_identifier, unescape, is_quoted, decode_value_token, is_nil,
  finish_token, split_comma_from, split_comma_list, take_items, span_identifier, extract_identifier,
  scan_segment, open_segment, extract_parenthesized_segment, push_statement, split_sql_from,
  split_sql_statements,
}
use jungle_week6_coding_sess.Jihyun.Sql.Parse.{
  parse_insert_statement, selected_columns, parse_select_at, parse_select_statement,
  parse_statement,
}

-- The functions with all that they call, to be run.
pub split : Bytes → SqlStatus × List Bytes
unfolding take drop overwrite bytes_eq is_space is_alnum to_lower skip_spaces trim_right
    trim_copy_range leading_spaces end_from trim_inplace lowercase_inplace char_difference char_at
    case_cmp is_zero case_equal case_starts_with is_blank_string is_identifier_boundary in_quotes
    at_quote next_quoting starts_mid_word keyword_here find_keyword_from find_keyword_outside_quotes
    is_identifier_char normalize_identifier unescape is_quoted decode_value_token is_nil
    finish_token split_comma_from split_comma_list take_items span_identifier extract_identifier
    scan_segment open_segment extract_parenthesized_segment push_statement split_sql_from
    split_sql_statements parse_insert_statement selected_columns parse_select_at
    parse_select_statement parse_statement
split = split_sql_statements

pub parse : Bytes → Parsed Statement
unfolding take drop overwrite bytes_eq is_space is_alnum to_lower skip_spaces trim_right
    trim_copy_range leading_spaces end_from trim_inplace lowercase_inplace char_difference char_at
    case_cmp is_zero case_equal case_starts_with is_blank_string is_identifier_boundary in_quotes
    at_quote next_quoting starts_mid_word keyword_here find_keyword_from find_keyword_outside_quotes
    is_identifier_char normalize_identifier unescape is_quoted decode_value_token is_nil
    finish_token split_comma_from split_comma_list take_items span_identifier extract_identifier
    scan_segment open_segment extract_parenthesized_segment push_statement split_sql_from
    split_sql_statements parse_insert_statement selected_columns parse_select_at
    parse_select_statement parse_statement
parse = parse_statement

split_two :
    split (codes " select 1 ; ; insert 'a;''b' ")
    ≡ (ok, codes "select 1" ∷ codes "insert 'a;''b'" ∷ [])
unfolding split
split_two = refl

parse_insert :
    parse (codes "INSERT INTO Users (Name, age) VALUES ('O''Re,illy', 3)")
    ≡ done (
        insert_stmt (record {
          table_name = codes "users";
          columns = codes "name" ∷ codes "age" ∷ [];
          values = codes "O'Re,illy" ∷ codes "3" ∷ [];
        }))
unfolding parse
parse_insert = refl

parse_select :
    parse (codes "select  *  FROM users")
    ≡ done (select_stmt (record { table_name = codes "users"; select_all = true; columns = [] }))
unfolding parse
parse_select = refl

parse_twice_freed : parse (codes "insert into t (a,,b) values (1,2)") ≡ double_free
unfolding parse
parse_twice_freed = refl

parse_refused : parse (codes "insert into t (,a) values (1,2)") ≡ fail invalid_query
unfolding parse
parse_refused = refl
