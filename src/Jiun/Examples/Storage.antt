-- ===== src/Jiun/Examples/Storage.antt =====
-- The table `users` with two columns.
use jungle_week6_coding_sess.Prelude.{
  ◌≡◌, refl, arith, inl, true, false, Option, some, none, List, [], ◌∷◌, codes, take, Bytes,
  bytes_eq, if◌then◌else◌,
}
use jungle_week6_coding_sess.Libc.Text.{is_space}
use jungle_week6_coding_sess.Libc.Disk.{Disk, contents}
use jungle_week6_coding_sess.Jiun.Types.{TableSchema, InsertPlan, SelectPlan}
use jungle_week6_coding_sess.Jiun.Text.{rtrim_inplace}
use jungle_week6_coding_sess.Jiun.Cells.{
  escape_of, encode_from, encode_cell, encode_row, split_tab_line,
}
use jungle_week6_coding_sess.Jiun.Cells.Words.{shown, split_tab_line-encode_row}
use jungle_week6_coding_sess.Jiun.Storage.{
  data_path, execute_insert, print_rows, execute_select_with_options,
}
use jungle_week6_coding_sess.Jiun.Storage.Lines.{IsStored, file_of}
use jungle_week6_coding_sess.Jiun.Storage.Shown.{table_text}
use jungle_week6_coding_sess.Jiun.Storage.Select.{
  IsComplete, print_rows-HasEmpty, execute_select-table_text, execute_select-execute_insert,
}

abbrev users : TableSchema
users = record {
  name = codes "users";
  columns =
      record { name = codes "id"; type = codes "int" }
      ∷ record { name = codes "name"; type = codes "string" }
      ∷ [];
}

-- `SELECT name, id FROM users`
abbrev select_names : SelectPlan
select_names = record { schema = users; selected_idx = 1 ∷ 0 ∷ [] }

abbrev kim : List Bytes
kim = codes "1" ∷ codes "Kim\\Lee" ∷ []

abbrev park : List Bytes
park = codes "2" ∷ codes "Park" ∷ []

abbrev nobody : List Bytes
nobody = [] ∷ codes "nobody" ∷ []

abbrev insert_park : InsertPlan
insert_park = record { schema = users; values = park }

-- The table with the row of Kim.
abbrev kim_files : Bytes → Option Bytes
kim_files path = if bytes_eq path (codes "users.data") then some (codes "1\tKim\\\\Lee\n") else none

abbrev kim_disk : Disk
kim_disk = record { file = kim_files; can_read = λ p. true; can_write = λ p. true }

kim-IsStored : IsStored kim
unfolding encode_row encode_cell encode_from escape_of rtrim_inplace is_space
kim-IsStored = record {
  short = (omega arith, (omega arith, tt));
  strings = ground arith;
  fits = omega arith;
  holds = refl;
  trimmed = refl;
}

park-IsStored : IsStored park
unfolding encode_row encode_cell encode_from escape_of rtrim_inplace is_space
park-IsStored = record {
  short = (omega arith, (omega arith, tt));
  strings = ground arith;
  fits = omega arith;
  holds = refl;
  trimmed = refl;
}

nobody-IsStored : IsStored nobody
unfolding encode_row encode_cell encode_from escape_of rtrim_inplace is_space
nobody-IsStored = record {
  short = (omega arith, (omega arith, tt));
  strings = ground arith;
  fits = omega arith;
  holds = refl;
  trimmed = refl;
}

kim-IsComplete : IsComplete 2 kim
kim-IsComplete = record { count = refl; filled = (refl, (refl, tt)) }

park-IsComplete : IsComplete 2 park
park-IsComplete = record { count = refl; filled = (refl, (refl, tt)) }

kim_disk-file_of : kim_disk.file (data_path users) ≡ some (file_of (kim ∷ []))
unfolding data_path take bytes_eq file_of encode_row encode_cell encode_from escape_of
kim_disk-file_of = refl

kim_disk-contents : contents (kim_disk.file (data_path users)) ≡ file_of (kim ∷ [])
unfolding data_path take bytes_eq file_of encode_row encode_cell encode_from escape_of
kim_disk-contents = refl

split_tab_line-encode_row_example : split_tab_line (encode_row nobody) 64 ≡ shown nobody
split_tab_line-encode_row_example =
    split_tab_line-encode_row nobody 64 (omega arith, (omega arith, tt)) (omega arith)

print_rows-HasEmpty_example :
    print_rows select_names (encode_row nobody ∷ encode_row kim ∷ [])
    ≡ print_rows select_names (encode_row kim ∷ [])
print_rows-HasEmpty_example =
    print_rows-HasEmpty select_names (omega arith) nobody (encode_row kim ∷ []) nobody-IsStored
      (omega arith) (inl refl)

execute_select-table_text_example :
    execute_select_with_options select_names false kim_disk
    ≡ (table_text select_names false (kim ∷ []), 1)
execute_select-table_text_example =
    execute_select-table_text select_names (omega arith) false kim_disk (kim ∷ []) refl
      kim_disk-file_of (kim-IsStored, tt) (kim-IsComplete, tt)

execute_select-execute_insert_example :
    (disk : Disk) × (execute_insert insert_park kim_disk ≡ (true, disk))
    × (execute_select_with_options select_names true disk
        ≡ (table_text select_names true (kim ∷ park ∷ []), 2))
execute_select-execute_insert_example =
    execute_select-execute_insert insert_park (1 ∷ 0 ∷ []) true kim_disk (kim ∷ []) refl refl
      kim_disk-contents (omega arith) (kim-IsStored, (park-IsStored, tt))
      (kim-IsComplete, (park-IsComplete, tt))
