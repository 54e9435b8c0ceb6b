-- ===== src/Jihyun/Examples/Storage.antt =====
-- The storage on the table `users`, which has no file at first.
use jungle_week6_coding_sess.Prelude.{
  ◌+◌, ◌≤◌, ◌≡◌, refl, arith, true, List, [], ◌∷◌, ◌++◌, codes, length,
}
use mathlib.Core.List.{flatten}
use jungle_week6_coding_sess.Jihyun.Status.{ok}
use jungle_week6_coding_sess.Jihyun.Action.{done}
use jungle_week6_coding_sess.Jihyun.Page.{DataPage, page_init, page_append_record, zero_page}
use jungle_week6_coding_sess.Jihyun.Page.Records.{Holds, page_append_record-adds, Holds-page_init}
use jungle_week6_coding_sess.Jihyun.Cache.{Machine}
use jungle_week6_coding_sess.Jihyun.Storage.{
  RowData, RowVisitor, total_length, storage_insert_row, storage_scan_rows, get_page_count,
  deserialize_row, serialize_row, visit_page,
}
use jungle_week6_coding_sess.Jihyun.Storage.Rows.{
  row_record, IsSmall, deserialize_row-serialize_row, serialize_row-IsSmall, length-row_record,
}
use jungle_week6_coding_sess.Jihyun.Storage.Visit.{visit_rows, visit_page-Holds}
use jungle_week6_coding_sess.Jihyun.Storage.Table.{get_page_count-Table}
use jungle_week6_coding_sess.Jihyun.Storage.Scan.{Scans, storage_scan_rows-Scans}
use jungle_week6_coding_sess.Jihyun.Storage.Insert.{Inserts, storage_insert_row-Inserts}
use jungle_week6_coding_sess.Jihyun.Storage.ScanAfterInsert.{storage_scan_rows-storage_insert_row}
use jungle_week6_coding_sess.Jihyun.Examples.Machines.{
  no_files_machine, no_files-Sound, users, users_path, users_path-fits, kim, no_users,
}

-- A visitor that collects the rows and never stops.
abbrev collect : RowVisitor (List RowData)
collect row rows = (true, rows ++ row ∷ [])

kim-IsSmall : IsSmall kim
unfolding total_length
kim-IsSmall = omega arith

deserialize_row-serialize_row_example :
    deserialize_row (row_record kim) (length (row_record kim)) ≡ done kim
deserialize_row-serialize_row_example = deserialize_row-serialize_row kim kim-IsSmall

serialize_row-IsSmall_example :
    serialize_row (length kim) kim ≡ (row_record kim, length (row_record kim))
serialize_row-IsSmall_example = serialize_row-IsSmall kim kim-IsSmall

get_page_count-Table_example :
    get_page_count users_path no_files_machine ≡ (done 0, no_files_machine)
get_page_count-Table_example = get_page_count-Table no_files-Sound no_users

kim-fits : total_length (length kim) kim + 4 ≤ 4080
unfolding total_length
kim-fits = omega arith

storage_insert_row-Inserts_example :
    Inserts
      (storage_insert_row (codes ".") users kim no_files_machine)
      no_files_machine
      users_path
      []
      kim
storage_insert_row-Inserts_example =
    storage_insert_row-Inserts (codes ".") users [] kim no_files_machine no_files-Sound
      users_path-fits no_users refl kim-fits (omega arith)

storage_scan_rows-storage_insert_row_example :
    (m : Machine) × (storage_insert_row (codes ".") users kim no_files_machine ≡ (done tt, m))
    × Scans collect (storage_scan_rows collect (codes ".") users [] m) m (kim ∷ []) []
unfolding flatten
storage_scan_rows-storage_insert_row_example =
    storage_scan_rows-storage_insert_row collect (codes ".") users [] kim [] no_files_machine
      no_files-Sound users_path-fits no_users refl kim-fits (omega arith)

-- The table after a row was inserted.
abbrev one_user :
    Inserts
      (storage_insert_row (codes ".") users kim no_files_machine)
      no_files_machine
      users_path
      []
      kim
one_user =
    storage_insert_row-Inserts (codes ".") users [] kim no_files_machine no_files-Sound
      users_path-fits no_users refl kim-fits (omega arith)

storage_scan_rows-Scans_example :
    Scans collect
      (storage_scan_rows collect (codes ".") users [] one_user.0)
      one_user.0
      (flatten one_user.1)
      []
storage_scan_rows-Scans_example =
    storage_scan_rows-Scans collect (codes ".") users one_user.1 [] one_user.0 one_user.3
      users_path-fits one_user.4

kim-in_first : (page_init 0).used_bytes + (4 + length (row_record kim)) ≤ 4080
unfolding page_init zero_page
kim-in_first = omega (arith, length-row_record kim kim-IsSmall, kim-fits)

-- A page that holds one row.
abbrev one_row :
    (after : DataPage) × (page_append_record
        (page_init 0)
        (row_record kim)
        (length (row_record kim))
      ≡ (ok, after))
    × Holds after (row_record kim ∷ [])
one_row = page_append_record-adds (Holds-page_init 0) (row_record kim) kim-in_first

visit_page-Holds_example : visit_page collect one_row.0 [] ≡ visit_rows collect (kim ∷ []) []
visit_page-Holds_example = visit_page-Holds collect (kim ∷ []) [] one_row.2 (kim-IsSmall, tt)
