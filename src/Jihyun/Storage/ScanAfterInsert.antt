-- ===== src/Jihyun/Storage/ScanAfterInsert.antt =====
-- What is inserted is found: storage_scan_rows after storage_insert_row.
use mathlib.Core.List.{flatten}
use jungle_week6_coding_sess.Prelude.{◌+◌, ◌<◌, ◌≤◌, ◌≡◌, subst, Bytes, List, [], ◌∷◌, ◌++◌, length}
use jungle_week6_coding_sess.Jihyun.Action.{done}
use jungle_week6_coding_sess.Jihyun.Page.{page_payload_size}
use jungle_week6_coding_sess.Jihyun.Schema.{TableSchema}
use jungle_week6_coding_sess.Jihyun.Cache.{Machine, max_path_length}
use jungle_week6_coding_sess.Jihyun.Cache.Stored.{page_limit}
use jungle_week6_coding_sess.Jihyun.Cache.Steady.{Sound}
use jungle_week6_coding_sess.Jihyun.Storage.{
  RowData, RowVisitor, total_length, build_table_path, storage_insert_row, storage_scan_rows,
}
use jungle_week6_coding_sess.Jihyun.Storage.Table.{Table}
use jungle_week6_coding_sess.Jihyun.Storage.Scan.{Scans, storage_scan_rows-Scans}
use jungle_week6_coding_sess.Jihyun.Storage.Insert.{storage_insert_row-Inserts}

-- On a table in a sound machine, if a row has a value for each column and fits in a page, and pages
-- are left to number, the insert succeeds, and a scan after it succeeds and gives the visitor the
-- rows that were there, in order, and then the new one, until the visitor stops.
pub storage_scan_rows-storage_insert_row :
    {S : Type 0} (visitor : RowVisitor S) (data_dir : Bytes) (schema : TableSchema)
    (chunks : List (List RowData)) (row : RowData) (s : S) (m : Machine)
    → Sound m
    → length (build_table_path data_dir schema.table_name) < max_path_length
    → Table m (build_table_path data_dir schema.table_name) chunks
    → length row ≡ length schema.columns
    → total_length (length row) row + 4 ≤ page_payload_size
    → length chunks < page_limit
    → (m' : Machine) × (storage_insert_row data_dir schema row m ≡ (done tt, m'))
      × Scans visitor
          (storage_scan_rows visitor data_dir schema s m')
          m'
          (flatten chunks ++ row ∷ [])
          s
storage_scan_rows-storage_insert_row visitor data_dir schema chunks row s m sound fits t columns
      small limit =
    let (m', chunks', e, sound', t', same, _) =
      storage_insert_row-Inserts data_dir schema chunks row m sound fits t columns small limit in
    (
      m',
      e,
      subst (λ rows. Scans visitor (storage_scan_rows visitor data_dir schema s m') m' rows s) same
          (storage_scan_rows-Scans visitor data_dir schema chunks' s m' sound' fits t'),
    )
