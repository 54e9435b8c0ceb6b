-- ===== src/Dragon/Examples/Users.antt =====
-- The file of the table `users` with the ages of three users.
use jungle_week6_coding_sess.Prelude.{
  ltb, ltb→lt, Bool-cases, inl, inr, ◌≡◌, refl, arith, List, [], ◌∷◌, true, false, Bool, codes,
  Option, some, none, Bytes, bytes_eq, if◌then◌else◌, take, drop, All,
}
use jungle_week6_coding_sess.Libc.Text.{is_digit, char_at, fgets_from, fgets_lines}
use jungle_week6_coding_sess.Libc.Text.Lines.{IsInLine}
use jungle_week6_coding_sess.Libc.Text.Numbers.{read_digits}
use jungle_week6_coding_sess.Libc.Disk.{open_read, c_string}
use jungle_week6_coding_sess.Dragon.Types.{
  cmd_delete, op_ge, WhereCondition, TableDef, Command, filled,
}
use jungle_week6_coding_sess.Dragon.Rows.{
  parse_next_length, parse_values, is_line_end, parse_encoded_row,
}
use jungle_week6_coding_sess.Dragon.Storage.{
  FileStore, find_table, build_table_path, load_lines, load_opened, load_full_table,
  file_read_all_rows,
}
use jungle_week6_coding_sess.Dragon.Storage.Reload.{IsRow}
use jungle_week6_coding_sess.Dragon.Executor.{Process}
use jungle_week6_coding_sess.Dragon.Executor.Delete.{whole}

abbrev pub users : TableDef
users = record {
  name = codes "users";
  columns =
      record { name = codes "name"; type = codes "string" }
      ∷ record { name = codes "age"; type = codes "int" }
      ∷ [];
}

abbrev pub store : FileStore
store = record { tables = users ∷ []; data_dir = codes "." }

abbrev pub kim : List Bytes
kim = codes "Kim" ∷ codes "9" ∷ []

abbrev pub lee : List Bytes
lee = codes "Lee, the 2nd" ∷ codes "31" ∷ []

abbrev pub park : List Bytes
park = [] ∷ codes "22" ∷ []

abbrev pub rows : List (List Bytes)
rows = kim ∷ lee ∷ park ∷ []

abbrev pub files : Bytes → Option Bytes
files path =
    if bytes_eq path (codes "./users.data")
    then some (codes "3:Kim1:9\n12:Lee, the 2nd2:31\n0:2:22\n")
    else none

abbrev pub process : Process
process = record {
  disk = record { file = files; can_read = λ p. true; can_write = λ p. true };
  output = [];
  errors = [];
}

-- `age >= 22`
abbrev pub grown_up : WhereCondition
grown_up = record { column = codes "age"; op = op_ge; value = codes "22" }

abbrev pub delete_grown_up : Command
delete_grown_up = record {
  type = cmd_delete;
  table_name = codes "users";
  insert_columns = [];
  values = [];
  columns = [];
  is_select_all = false;
  where_condition = some grown_up;
  order_by = none;
  limit_count = none;
  set_clauses = [];
}

-- Every byte is above the line feed.
abbrev is_printable : Bytes → Bool
is_printable [] = true
is_printable (c ∷ bytes) = if ltb 10 c then is_printable bytes else false

pub is_printable-IsInLine : (bytes : Bytes) → is_printable bytes ≡ true → All IsInLine bytes
is_printable-IsInLine [] h = tt
is_printable-IsInLine (c ∷ bytes) h = elim (Bool-cases (ltb 10 c)) [
  | inl e ↦
      let above = ltb→lt 10 c e in
      (
        record { positive = omega (arith, above); no_line_feed = λ q. omega (arith, above, q) },
        is_printable-IsInLine bytes (rw e at h),
      )
  | inr e ↦ absurd (cc (rw e at h))
]

pub kim-IsRow : IsRow 2 kim
kim-IsRow = record {
  count = refl;
  values = ground arith;
  in_line =
      (is_printable-IsInLine (codes "Kim") refl, (is_printable-IsInLine (codes "9") refl, tt));
}

pub lee-IsRow : IsRow 2 lee
lee-IsRow = record {
  count = refl;
  values = ground arith;
  in_line = (
    is_printable-IsInLine (codes "Lee, the 2nd") refl,
    (is_printable-IsInLine (codes "31") refl, tt),
  );
}

pub park-IsRow : IsRow 2 park
park-IsRow = record {
  count = refl;
  values = ground arith;
  in_line = (tt, (is_printable-IsInLine (codes "22") refl, tt));
}

pub users-found : find_table store.tables (codes "users") ≡ some users
unfolding find_table bytes_eq
users-found = refl

pub users_path : build_table_path store (codes "users") ≡ some (codes "./users.data")
unfolding build_table_path
users_path = refl

pub users-read : file_read_all_rows store (codes "users") process.disk ≡ filled (whole users rows)
unfolding file_read_all_rows find_table bytes_eq load_full_table build_table_path open_read
    load_opened load_lines fgets_lines fgets_from c_string parse_encoded_row parse_values
    parse_next_length read_digits is_digit char_at drop take is_line_end
users-read = refl
