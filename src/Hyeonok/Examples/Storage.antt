-- ===== src/Hyeonok/Examples/Storage.antt =====
-- The table `users` with the row of Kim, whose name is empty.
use jungle_week6_coding_sess.Prelude.{
  ◌≡◌, refl, arith, List, [], ◌∷◌, true, false, inl, inr, All, codes, Option, some, none, Bytes,
  bytes_eq, if◌then◌else◌, take, drop,
}
use jungle_week6_coding_sess.Prelude.Spec.{concat, comma_line}
use jungle_week6_coding_sess.Libc.Text.{is_space, char_at}
use jungle_week6_coding_sess.Libc.Disk.{open_read, c_string, contents, Disk}
use jungle_week6_coding_sess.Hyeonok.Text.{skip_spaces, read_entire_file}
use jungle_week6_coding_sess.Hyeonok.Ast.{
  SqlValue, string_value, int_value, InsertStatement, SelectStatement,
}
use jungle_week6_coding_sess.Hyeonok.Schema.{
  expect_char, until_double_quote, parse_json_string, parse_column_type, add_field, parse_pairs,
  parse_column_object, parse_objects, parse_columns_array, parse_member, parse_members,
  parse_schema_json, schema_of, load_schema_for_table, Schema, string_column, int_column,
  schema_loaded,
}
use jungle_week6_coding_sess.Hyeonok.Storage.{
  escape, write_escaped_text, row_text, parse_storage_row,
}
use jungle_week6_coding_sess.Hyeonok.Storage.Fields.{parse_storage_row-row_text}
use jungle_week6_coding_sess.Hyeonok.Storage.Lines.{IsString, table_file}
use jungle_week6_coding_sess.Hyeonok.Executor.{
  execute_insert_statement, execute_select_statement, execute_success,
}
use jungle_week6_coding_sess.Hyeonok.Executor.Columns.{
  SelectsColumns, shown_names, shown_values, value_of,
}
use jungle_week6_coding_sess.Hyeonok.Executor.Fills.{FillsSchema, given, row_given}
use jungle_week6_coding_sess.Hyeonok.Executor.Select.{
  IsRow, table_text, data_file, execute_select_statement-table_text,
}
use jungle_week6_coding_sess.Hyeonok.Executor.Insert.{
  execute_select_statement-execute_insert_statement,
}

abbrev files : Bytes → Option Bytes
files path =
    if bytes_eq path (codes "users.schema")
    then some (
        codes
          "{\"table\": \"users\", \"columns\": [{\"name\": \"id\", \"type\": \"int\"}, {\"type\": \"string\", \"name\": \"name\"}] }")
    else if bytes_eq path (codes "users.data")
    then some (codes "1\t\n")
    else none

abbrev disk : Disk
disk = record { file = files; can_read = λ p. true; can_write = λ p. true }

abbrev users : Schema
users = record {
  table_name = codes "users";
  columns =
      record { name = codes "id"; type = int_column }
      ∷ record { name = codes "name"; type = string_column }
      ∷ [];
}

abbrev kim : List Bytes
kim = codes "1" ∷ [] ∷ []

abbrev park : List Bytes
park = codes "2" ∷ codes "Park" ∷ []

abbrev id_of_park : SqlValue
id_of_park = record { type = int_value; text = codes "2"; word = 2 }

abbrev name_of_park : SqlValue
name_of_park = record { type = string_value; text = codes "Park"; word = 0 }

abbrev insert_park : InsertStatement
insert_park = record {
  table_name = codes "users";
  columns = codes "name" ∷ codes "id" ∷ [];
  values = name_of_park ∷ id_of_park ∷ [];
}

users-loads : load_schema_for_table (codes "users") disk ≡ schema_loaded users
unfolding bytes_eq take drop is_space char_at open_read c_string skip_spaces read_entire_file
    expect_char until_double_quote parse_json_string parse_column_type add_field parse_pairs
    parse_column_object parse_objects parse_columns_array parse_member parse_members
    parse_schema_json schema_of load_schema_for_table
users-loads = refl

insert_park-FillsSchema : FillsSchema insert_park users
unfolding bytes_eq
insert_park-FillsSchema = record {
  values = refl;
  columns = refl;
  known = (inr (inl refl), (inl refl, tt));
  once = ((refl, tt), (tt, tt));
  every = (inr (inl refl), (inl refl, tt));
  names = ((refl, tt), (tt, tt));
}

-- The given row is the one of Park, though the INSERT names the columns in another order.
insert_park-row : row_given insert_park users ≡ park
unfolding row_given given bytes_eq
insert_park-row = refl

-- `SELECT name, id FROM users`
abbrev select_names : SelectStatement
select_names = record {
  select_all = false;
  table_name = codes "users";
  columns = codes "name" ∷ codes "id" ∷ [];
}

select_names-SelectsColumns : SelectsColumns select_names users
unfolding bytes_eq
select_names-SelectsColumns = inr (inr (inl refl), (inl refl, tt))

kim-IsRow : IsRow 2 kim
unfolding row_text write_escaped_text escape
kim-IsRow = record { count = refl; holds = refl }

park-IsRow : IsRow 2 park
unfolding row_text write_escaped_text escape
park-IsRow = record { count = refl; holds = refl }

users_file : disk.file (data_file (codes "users")) ≡ some (table_file (kim ∷ []))
unfolding bytes_eq table_file row_text write_escaped_text escape
users_file = refl

users_contents : contents (disk.file (data_file (codes "users"))) ≡ table_file (kim ∷ [])
unfolding bytes_eq table_file row_text write_escaped_text escape
users_contents = refl

parse_storage_row-row_text_example : parse_storage_row (row_text kim) 2 ≡ some kim
parse_storage_row-row_text_example = parse_storage_row-row_text kim

execute_select_statement-table_text_example :
    execute_select_statement select_names disk
    ≡ (execute_success, table_text select_names users (kim ∷ []))
execute_select_statement-table_text_example =
    execute_select_statement-table_text select_names users disk (kim ∷ []) users-loads
      select_names-SelectsColumns (omega arith) refl users_file (ground arith) (kim-IsRow, tt)

given-IsRow : IsRow 2 (row_given insert_park users)
given-IsRow = rw insert_park-row park-IsRow

given-IsString : All (All IsString) (kim ∷ row_given insert_park users ∷ [])
given-IsString = rw insert_park-row (ground arith)

execute_select_statement-execute_insert_statement_example :
    (disk' : Disk) × (execute_insert_statement insert_park disk ≡ (execute_success, disk'))
    × (execute_select_statement select_names disk'
        ≡ (execute_success, table_text select_names users (kim ∷ row_given insert_park users ∷ [])))
execute_select_statement-execute_insert_statement_example =
    execute_select_statement-execute_insert_statement insert_park select_names users disk (kim ∷ [])
      users-loads insert_park-FillsSchema refl select_names-SelectsColumns (omega arith) refl refl
      users_contents given-IsString (kim-IsRow, (given-IsRow, tt))

-- What the SELECT prints then.
text_of_park : table_text select_names users (kim ∷ park ∷ []) ≡ codes "name,id\n,1\nPark,2\n"
unfolding table_text shown_names shown_values value_of comma_line concat bytes_eq
text_of_park = refl

-- An INSERT that names a column twice.
abbrev insert_twice : InsertStatement
insert_twice = record {
  table_name = codes "users";
  columns = codes "id" ∷ codes "id" ∷ [];
  values = id_of_park ∷ name_of_park ∷ [];
}
