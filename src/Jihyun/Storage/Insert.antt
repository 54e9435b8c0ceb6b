-- ===== src/Jihyun/Storage/Insert.antt =====
-- storage_insert_row on a table adds the row behind the last one.
use mathlib.Core.List.{flatten}
use jungle_week6_coding_sess.Prelude.{
  ℕ, suc, ◌+◌, ◌<◌, ◌≤◌, ◌≡◌, ◌≢◌, inl, inr, refl, sym, ap, subst, ◌∙◌, List, [], ◌∷◌, ◌++◌, arith,
  length, Bytes, length-append, snoc-cases, append_assoc, append-nil,
}
use jungle_week6_coding_sess.Jihyun.Action.{Outcome, done, bind-done, Action, ◌>>◌, ◌>>=◌}
use jungle_week6_coding_sess.Jihyun.Page.{page_payload_size}
use jungle_week6_coding_sess.Libc.Disk.{FilePath}
use jungle_week6_coding_sess.Jihyun.Schema.{TableSchema}
use jungle_week6_coding_sess.Jihyun.Cache.{Machine, max_path_length, buffer_cache_flush_file}
use jungle_week6_coding_sess.Jihyun.Cache.Stored.{page_limit}
use jungle_week6_coding_sess.Jihyun.Cache.Steady.{Sound}
use jungle_week6_coding_sess.Jihyun.Storage.{
  RowData, total_length, ensure_table_file, target_page, page_with_room, mark_dirty, append_to,
  build_table_path, storage_insert_row, get_page_count,
}
use jungle_week6_coding_sess.Jihyun.Storage.Rows.{
  row_record, IsSmall, serialize_row-IsSmall, length-row_record,
}
use jungle_week6_coding_sess.Jihyun.Storage.Table.{Table, Table-Steady, get_page_count-Table}
use jungle_week6_coding_sess.Jihyun.Storage.Target.{
  LastPage, ensure_table_file-Steady, first_page, last_page,
}
use jungle_week6_coding_sess.Jihyun.Storage.Room.{flatten-snoc_nil, page_with_room-LastPage}
use jungle_week6_coding_sess.Jihyun.Storage.Append.{append_row}
use jungle_week6_coding_sess.Jihyun.Storage.Beside.{Beside, Beside-trans, Table-Beside}

flatten-snoc :
    (chunks : List (List RowData)) (last : List RowData) (row : RowData)
    → flatten (chunks ++ (last ++ row ∷ []) ∷ []) ≡ flatten (chunks ++ last ∷ []) ++ row ∷ []
unfolding flatten
flatten-snoc [] last row = simp append-nil
flatten-snoc (chunk ∷ chunks) last row = simp (flatten-snoc chunks last row, append_assoc)

abbrev Inserted :
    Machine → FilePath → List (List RowData) → RowData → Action Machine (Unit {0}) → Type 0
Inserted m path chunks row action =
    (m' : Machine) × (chunks' : List (List RowData)) × (action m ≡ (done tt, m'))
    × Sound m'
    × Table m' path chunks'
    × (flatten chunks' ≡ flatten chunks ++ row ∷ [])
    × Beside path m m'

-- From the last page of a table on.
insert_from :
    (path : FilePath)
    → length path < max_path_length
    → (m : Machine) (initial : List (List RowData)) (last : List RowData) (k i : ℕ) (row : RowData)
    → LastPage m path initial last k i
    → length (row_record row) + 4 ≤ page_payload_size
    → IsSmall row
    → suc k < page_limit
    → Inserted m path (initial ++ last ∷ []) row (do
      (page_id, index) ← page_with_room path (length (row_record row)) (k, i, suc k)
      append_to index (row_record row) (length (row_record row))
      mark_dirty path page_id
      buffer_cache_flush_file path)
insert_from path fits m initial last k i row p small is_small in_limit =
    let (m1, initial', last', k', j, e, q, room, same, b) =
      page_with_room-LastPage path fits m initial last k i row p small in_limit in
    let (m2, e2, s, t, b2) = append_row path m1 initial' last' k' j row q room is_small in
    (
      m2,
      initial' ++ (last' ++ row ∷ []) ∷ [],
      bind-done _ e e2,
      s,
      t,
      flatten-snoc initial' last' row ∙ ap (λ rows. rows ++ row ∷ []) same,
      Beside-trans b b2,
    )

-- What an insert does: it succeeds, the rows of the table have one more at their end, and every
-- other table stays as it is.
abbrev pub Inserts :
    Outcome (Unit {0}) × Machine → Machine → FilePath → List (List RowData) → RowData → Type 0
Inserts result m path chunks row =
    (m' : Machine) × (chunks' : List (List RowData)) × (result ≡ (done tt, m'))
    × Sound m'
    × Table m' path chunks'
    × (flatten chunks' ≡ flatten chunks ++ row ∷ [])
    × ((p : FilePath) (others : List (List RowData))
        → p ≢ path
        → Table m p others
        → Table m' p others)

-- From the number of pages on.
insert_counted :
    (path : FilePath)
    → length path < max_path_length
    → (m : Machine) (chunks : List (List RowData)) (row : RowData) → Sound m
    → Table m path chunks
    → length (row_record row) + 4 ≤ page_payload_size
    → IsSmall row
    → length chunks < page_limit
    → Inserted m path chunks row (do
      target ← target_page path (length chunks)
      (page_id, index) ← page_with_room path (length (row_record row)) target
      append_to index (row_record row) (length (row_record row))
      mark_dirty path page_id
      buffer_cache_flush_file path)
insert_counted path fits m chunks row s t small is_small in_limit = elim (snoc-cases chunks) [
  | inl empty ↦
      let (m2, i, e2, p, b2) = first_page path fits m s (rw empty at t) in
      let (m3, chunks', e3, s3, t3, same, b3) =
        insert_from path fits m2 [] [] 0 i row p small is_small (omega arith) in
      let at_zero =
        subst (λ n. target_page path n m ≡ (done (0, i, 1), m2)) (sym (ap length empty)) e2 in
      (
        m3,
        chunks',
        bind-done _ at_zero e3,
        s3,
        t3,
        same
            ∙ ap (λ rows. rows ++ row ∷ []) (flatten-snoc_nil [])
            ∙ ap (λ c. flatten c ++ row ∷ []) (sym empty),
        Beside-trans b2 b3,
      )
  | inr (initial, last, split) ↦
      let count : length chunks ≡ suc (length initial) =
        omega (arith, ap length split, length-append initial (last ∷ [])) in
      let (m2, i, e2, p, b2) = last_page path fits m initial last s (rw split at t) in
      let (m3, chunks', e3, s3, t3, same, b3) =
        insert_from path fits m2 initial last (length initial) i row p small is_small
          (omega (arith, count, in_limit)) in
      let at_count =
        subst (λ n. target_page path n m ≡ (done (length initial, i, suc (length initial)), m2))
          (sym count) e2 in
      (
        m3,
        chunks',
        bind-done _ at_count e3,
        s3,
        t3,
        same ∙ ap (λ c. flatten c ++ row ∷ []) (sym split),
        Beside-trans b2 b3,
      )
]

-- The record and its length in place of the buffer.
storage_insert_row-row_record :
    (data_dir : Bytes) (schema : TableSchema) (row : RowData)
    → length row ≡ length schema.columns
    → IsSmall row
    → storage_insert_row data_dir schema row ≡ (do
      let path = build_table_path data_dir schema.table_name
      ensure_table_file path
      page_count ← get_page_count path
      target ← target_page path page_count
      (page_id, index) ← page_with_room path (length (row_record row)) target
      append_to index (row_record row) (length (row_record row))
      mark_dirty path page_id
      buffer_cache_flush_file path)
unfolding storage_insert_row
storage_insert_row-row_record data_dir schema row columns small =
    rw (← columns, ap (λ (x : Bytes × ℕ). x.1) (serialize_row-IsSmall row small)) refl

-- On a table in a sound machine, with a row that has a value for each column and fits in a page,
-- and with pages left to number, storage_insert_row succeeds: the table has the row behind its
-- others, every other table holds the rows that it held, and the machine is sound.
pub storage_insert_row-Inserts :
    (data_dir : Bytes) (schema : TableSchema) (chunks : List (List RowData)) (row : RowData)
    (m : Machine)
    → Sound m
    → length (build_table_path data_dir schema.table_name) < max_path_length
    → Table m (build_table_path data_dir schema.table_name) chunks
    → length row ≡ length schema.columns
    → total_length (length row) row + 4 ≤ page_payload_size
    → length chunks < page_limit
    → Inserts
        (storage_insert_row data_dir schema row m)
        m
        (build_table_path data_dir schema.table_name)
        chunks
        row
storage_insert_row-Inserts data_dir schema chunks row m s fits t columns small in_limit =
    let path = build_table_path data_dir schema.table_name in
    let is_small : IsSmall row = omega (arith, small) in
    let (m1, e1, a1) = ensure_table_file-Steady path m s in
    let t1 = Table-Steady a1 t in
    let counted = get_page_count-Table a1.sound t1 in
    let runs = ap (λ f. f m) (storage_insert_row-row_record data_dir schema row columns is_small) in
    let (m', chunks', e, s', t', same, b) =
      insert_counted path fits m1 chunks row a1.sound t1
        (omega (arith, small, length-row_record row is_small)) is_small in_limit in
    (
      m',
      chunks',
      runs ∙ bind-done _ e1 (bind-done _ counted e),
      s',
      t',
      same,
      λ p others ne h. Table-Beside b ne (Table-Steady a1 h),
    )
