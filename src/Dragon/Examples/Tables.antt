-- ===== src/Dragon/Examples/Tables.antt =====
-- Statements on the table `users`.
use mathlib.Core.List.{Permᴰ}
use jungle_week6_coding_sess.Prelude.{
  inl, inr, ◌≡◌, refl, arith, List, [], ◌∷◌, ◌++◌, true, false, codes, some, Bytes, bytes_eq, drop,
  map, All,
}
use jungle_week6_coding_sess.Prelude.Spec.{Distinct, only, comma_line, concat}
use jungle_week6_coding_sess.Libc.Text.{is_space, is_digit, char_at}
use jungle_week6_coding_sess.Libc.Text.Numbers.{skip_space, read_digits, at_most, strtol}
use jungle_week6_coding_sess.Libc.Disk.{Disk}
use jungle_week6_coding_sess.Dragon.Types.{
  cmd_update, cmd_select, order_desc, Command, err_none, filled,
}
use jungle_week6_coding_sess.Dragon.Values.{
  row_matches_where, compare_with_operator, compare_values, compare_numbers, strcmp,
}
use jungle_week6_coding_sess.Dragon.Storage.{
  find_column_index, find_column_from, file_read_all_rows, file_replace_rows, file_storage_create,
}
use jungle_week6_coding_sess.Dragon.Storage.Reload.{file_read_all_rows-file_replace_rows}
use jungle_week6_coding_sess.Dragon.Tables.{
  filter_rows_in_place, delete_rows_in_place, should_swap, sort_pass, sort_passes,
  sort_rows_in_place,
}
use jungle_week6_coding_sess.Dragon.Tables.Sort.{
  Ordered, InOrder, IsInteger, sort_rows_in_place-Ordered,
}
use jungle_week6_coding_sess.Dragon.Tables.Where.{filter_rows_in_place-delete_rows_in_place}
use jungle_week6_coding_sess.Dragon.Tables.Update.{names, updated, new_value}
use jungle_week6_coding_sess.Dragon.Executor.Update.{
  IsUpdate, row_meant, execute_update-file_read_all_rows,
}
use jungle_week6_coding_sess.Dragon.Executor.{
  Process, resolve_where_column, rows_left, execute_update, execute_select, resolve_order_by_column,
}
use jungle_week6_coding_sess.Dragon.Executor.Shown.{
  SelectsColumns, shown_names, shown_values, value_of, table_text,
}
use jungle_week6_coding_sess.Dragon.Executor.Select.{
  HasKeys, IsOrdered, limited, execute_select-only_matching,
}
use jungle_week6_coding_sess.Dragon.Executor.Delete.{whole, is_affected}
use jungle_week6_coding_sess.Dragon.Examples.Users.{
  users, store, kim, lee, park, rows, files, process, grown_up, delete_grown_up,
  is_printable-IsInLine, kim-IsRow, lee-IsRow, park-IsRow, users-found, users_path, users-read,
}

-- The rows that the DELETE leaves.
rows_left_young : rows_left (some (1, grown_up)) rows ≡ kim ∷ []
unfolding rows_left delete_rows_in_place row_matches_where compare_with_operator compare_values
    compare_numbers strcmp strtol skip_space read_digits at_most is_space is_digit char_at drop
rows_left_young = refl

sorted_by_age : sort_rows_in_place 1 order_desc rows ≡ lee ∷ park ∷ kim ∷ []
unfolding sort_rows_in_place sort_passes sort_pass should_swap compare_values compare_numbers strcmp
    strtol skip_space read_digits at_most is_space is_digit char_at drop
sorted_by_age = refl

ages-IsInteger : All (IsInteger 1) rows
unfolding strtol skip_space read_digits at_most is_space is_digit char_at drop
ages-IsInteger = (refl, (refl, (refl, tt)))

sort_rows_in_place-Ordered_example :
    Permᴰ rows (sort_rows_in_place 1 order_desc rows)
    × Ordered (InOrder 1 order_desc) (sort_rows_in_place 1 order_desc rows)
sort_rows_in_place-Ordered_example = sort_rows_in_place-Ordered 1 order_desc rows ages-IsInteger

filter_rows_in_place-delete_rows_in_place_example :
    All (λ row. row_matches_where 1 grown_up row ≡ true) (filter_rows_in_place 1 grown_up rows)
    × All (λ row. row_matches_where 1 grown_up row ≡ false) (delete_rows_in_place 1 grown_up rows)
    × Permᴰ (filter_rows_in_place 1 grown_up rows ++ delete_rows_in_place 1 grown_up rows) rows
filter_rows_in_place-delete_rows_in_place_example =
    filter_rows_in_place-delete_rows_in_place 1 grown_up rows

grown_up-resolves : resolve_where_column users (some grown_up) ≡ filled (some (1, grown_up))
unfolding resolve_where_column find_column_index find_column_from bytes_eq
grown_up-resolves = refl

file_read_all_rows-file_replace_rows_example :
    (disk : Disk) × (file_replace_rows store
        (codes "users")
        (whole users (lee ∷ kim ∷ []))
        process.disk
      ≡ (err_none, disk))
    × (file_read_all_rows store (codes "users") disk ≡ filled (whole users (lee ∷ kim ∷ [])))
    × ((p : Bytes) → bytes_eq p (codes "./users.data") ≡ false → disk.file p ≡ files p)
    × (disk.can_read ≡ (λ p. true))
file_read_all_rows-file_replace_rows_example =
    file_read_all_rows-file_replace_rows store users (codes "users") (codes "./users.data")
      (lee ∷ kim ∷ []) process.disk users-found users_path (omega arith) refl refl (omega arith)
      (lee-IsRow, (kim-IsRow, tt))

-- `UPDATE users SET name = 'X', age = 40 WHERE age >= 22`
abbrev set_grown_up : Command
set_grown_up = record delete_grown_up {
  type = cmd_update;
  set_clauses =
      record { column = codes "age"; value = codes "40" }
      ∷ record { column = codes "name"; value = codes "X" }
      ∷ [];
}

set_grown_up-IsUpdate : IsUpdate users set_grown_up.set_clauses
unfolding bytes_eq
set_grown_up-IsUpdate = record {
  known = (inr (inl refl), (inl refl, tt));
  once = ((refl, tt), (tt, tt));
  values = ground arith;
  in_line = (is_printable-IsInLine (codes "40") refl, (is_printable-IsInLine (codes "X") refl, tt));
}

users-Distinct : Distinct (names users.columns)
unfolding bytes_eq
users-Distinct = ((refl, tt), (tt, tt))

execute_update-file_read_all_rows_example :
    (s : Process) × (execute_update set_grown_up (file_storage_create store) users process
      ≡ (true, s))
    × (s.output ≡ [])
    × (s.errors ≡ [])
    × (file_read_all_rows store (codes "users") s.disk
        ≡ filled (
            whole users (map (row_meant users (some (1, grown_up)) set_grown_up.set_clauses) rows)))
execute_update-file_read_all_rows_example =
    execute_update-file_read_all_rows store set_grown_up users (codes "./users.data")
      (some (1, grown_up)) rows process users-found users_path (omega arith) users-Distinct refl
      refl users-read grown_up-resolves set_grown_up-IsUpdate (omega arith)
      (kim-IsRow, (lee-IsRow, (park-IsRow, tt)))

rows_updated :
    map (row_meant users (some (1, grown_up)) set_grown_up.set_clauses) rows
    ≡ kim ∷ (codes "X" ∷ codes "40" ∷ []) ∷ (codes "X" ∷ codes "40" ∷ []) ∷ []
unfolding row_meant is_affected updated new_value bytes_eq row_matches_where compare_with_operator
    compare_values compare_numbers strcmp strtol skip_space read_digits at_most is_space is_digit
    char_at drop
rows_updated = refl

-- `SELECT name FROM users WHERE age >= 22 ORDER BY age DESC LIMIT 1`
abbrev select_oldest : Command
select_oldest = record delete_grown_up {
  type = cmd_select;
  columns = codes "name" ∷ [];
  order_by = some (record { column = codes "age"; direction = order_desc });
  limit_count = some 1;
}

oldest_order-resolves :
    resolve_order_by_column users select_oldest.order_by
    ≡ filled (some (1, record { column = codes "age"; direction = order_desc }))
unfolding resolve_order_by_column find_column_index find_column_from bytes_eq
oldest_order-resolves = refl

ages-HasKeys :
    HasKeys
      (some (1, record { column = codes "age"; direction = order_desc }))
      (only (is_affected (some (1, grown_up))) rows)
unfolding only is_affected row_matches_where compare_with_operator compare_values compare_numbers
    strcmp strtol skip_space read_digits at_most is_space is_digit char_at drop
ages-HasKeys = (refl, (refl, tt))

select_oldest-SelectsColumns : SelectsColumns select_oldest users
unfolding bytes_eq
select_oldest-SelectsColumns = inr (inl refl, tt)

execute_select-only_matching_example :
    (ordered : List (List Bytes)) × IsOrdered
      (some (1, record { column = codes "age"; direction = order_desc }))
      (only (is_affected (some (1, grown_up))) rows)
      ordered
    × (execute_select select_oldest (file_storage_create store) users process ≡ (
      true,
      record process { output = [] ++ table_text select_oldest users (limited (some 1) ordered) },
    ))
execute_select-only_matching_example =
    execute_select-only_matching store select_oldest users (some (1, grown_up))
      (some (1, record { column = codes "age"; direction = order_desc })) rows process users-read
      grown_up-resolves oldest_order-resolves ages-HasKeys select_oldest-SelectsColumns

name_of_oldest : table_text select_oldest users (lee ∷ []) ≡ codes "name\nLee, the 2nd\n"
unfolding table_text shown_names shown_values value_of comma_line concat bytes_eq
name_of_oldest = refl
