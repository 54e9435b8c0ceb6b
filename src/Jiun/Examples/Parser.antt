-- ===== src/Jiun/Examples/Parser.antt =====
-- The statements of a user, parsed.
use jungle_week6_coding_sess.Prelude.{
  ◌≡◌, ◌⊎◌, ◌<◌, refl, [], ◌∷◌, ◌++◌, codes, length, Option, some, none, All, true, Bytes, take,
  drop, replicate,
}
use jungle_week6_coding_sess.Libc.Text.{is_space, is_digit, is_alpha, is_alnum, to_lower, char_at}
use jungle_week6_coding_sess.Jiun.Types.{TableSchema, SchemaRegistry, InsertPlan, SelectPlan, ok}
use jungle_week6_coding_sess.Jiun.Text.{
  ci_equal, ci_n_equal, skip_ws, rtrim_inplace, is_word, span_word, parse_identifier,
  consume_keyword, trim_copy, all_digits, is_unsigned_literal, is_integer_literal,
}
use jungle_week6_coding_sess.Jiun.Values.{
  next_item, split_idents, split_csv_like_ident_list, quoted_value, until_comma, read_value,
  split_values, split_values_list,
}
use jungle_week6_coding_sess.Jiun.Values.Quotes.{
  with_quotes_doubled, quoted_value-with_quotes_doubled,
}
use jungle_week6_coding_sess.Jiun.Parser.{
  find_table, find_col_from, find_col_index, column_segment, value_segment, expect, type_at,
  is_bad_int, assign_items, all_assigned, insert_plan, parse_insert, at_from, before_from,
  selected_list, indexes, column_indexes, select_indexes, parse_select,
}
use jungle_week6_coding_sess.Jiun.Parser.Indexes.{parse_select-bounds}
use jungle_week6_coding_sess.Jiun.Parser.Plan.{IsTyped, parse_insert-IsTyped}
use jungle_week6_coding_sess.Jiun.Schema.{returned, schema_of}
use jungle_week6_coding_sess.Jiun.Schema.Fuel.{schema_of-returned}
use jungle_week6_coding_sess.Jiun.Processor.{Session, execute_sql_text}
use jungle_week6_coding_sess.Jiun.Processor.ExitCode.{execute_sql_text-exit_code}

abbrev users : TableSchema
users = record {
  name = codes "users";
  columns =
      record { name = codes "id"; type = codes "int" }
      ∷ record { name = codes "name"; type = codes "string" }
      ∷ [];
}

abbrev tables : SchemaRegistry
tables = users ∷ []

abbrev insert_text : Bytes
insert_text = codes "insert into users (name, id) values ('O''Neil', -7)"

abbrev insert_neil : InsertPlan
insert_neil = record { schema = users; values = codes "-7" ∷ codes "O'Neil" ∷ [] }

parse_insert_text : parse_insert insert_text tables ≡ ok insert_neil
unfolding take drop replicate is_space is_digit is_alpha is_alnum to_lower char_at ci_equal
    ci_n_equal skip_ws rtrim_inplace is_word span_word parse_identifier consume_keyword trim_copy
    all_digits is_unsigned_literal is_integer_literal next_item split_idents
    split_csv_like_ident_list quoted_value until_comma read_value split_values split_values_list
    find_table find_col_from find_col_index column_segment value_segment expect type_at is_bad_int
    assign_items all_assigned insert_plan parse_insert
parse_insert_text = refl

abbrev select_text : Bytes
select_text = codes "SELECT name FROM users"

abbrev select_name : SelectPlan
select_name = record { schema = users; selected_idx = 1 ∷ [] }

parse_select_text : parse_select select_text tables ≡ ok select_name
unfolding take drop is_space is_digit is_alpha is_alnum to_lower char_at ci_equal ci_n_equal skip_ws
    is_word span_word parse_identifier consume_keyword next_item split_idents
    split_csv_like_ident_list find_table find_col_from find_col_index at_from before_from
    selected_list indexes column_indexes select_indexes parse_select
parse_select_text = refl

parse_insert-IsTyped_example : IsTyped insert_neil.schema.columns insert_neil.values
parse_insert-IsTyped_example = parse_insert-IsTyped insert_text tables insert_neil parse_insert_text

parse_select-bounds_example : All (λ idx. idx < 2) select_name.selected_idx
parse_select-bounds_example = parse_select-bounds select_text tables select_name parse_select_text

quoted_value-with_quotes_doubled_example :
    quoted_value (with_quotes_doubled (codes "O'Neil") ++ (b'\'' ∷ codes ", 7"))
    ≡ some (codes "O'Neil", codes ", 7")
unfolding char_at
quoted_value-with_quotes_doubled_example =
    quoted_value-with_quotes_doubled (codes "O'Neil") (codes ", 7") refl

schema_of-returned_example :
    (result : Option TableSchema) × (schema_of
        (codes "{\"table\": \"t\", \"columns\": [{\"name\": \"id\", \"type\": \"int\"}]}")
      ≡ returned result)
schema_of-returned_example =
    schema_of-returned
      (codes "{\"table\": \"t\", \"columns\": [{\"name\": \"id\", \"type\": \"int\"}]}")

-- Without any file.
abbrev session : Session
session = record {
  disk = record { file = λ p. none; can_read = λ p. true; can_write = λ p. true };
  output = [];
  errors = [];
}

execute_sql_text-exit_code_example :
    (((execute_sql_text select_text session).0 ≡ 0)
      × ((execute_sql_text select_text session).1.errors ≡ []))
    ⊎ (((execute_sql_text select_text session).0 ≡ 1)
        × (0 < length (execute_sql_text select_text session).1.errors))
execute_sql_text-exit_code_example = execute_sql_text-exit_code select_text session
