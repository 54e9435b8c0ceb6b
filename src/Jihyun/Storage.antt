-- ===== src/Jihyun/Storage.antt =====
-- storage.c: rows as records in the pages of a table's file, through the buffer cache. The
-- `data_dir` of the engine, which never changes, is an argument; its cache is in the machine.
pub mod Rows
pub mod Visit
pub mod Table
pub mod Beside
pub mod Scan
pub mod Target
pub mod Room
pub mod Append
pub mod Insert
pub mod ScanAfterInsert
use jungle_week6_coding_sess.Prelude.{
  ℕ, zero, suc, ◌+◌, ◌-◌, ◌/◌, ◌%◌, Bool, not, Option, none, some, Bytes, List, [], ◌∷◌, ◌++◌, ltb,
  ◌==◌, if◌then◌else◌, length, take, drop, codes,
}
use jungle_week6_coding_sess.Prelude.Words.{u32_mod, u32_bytes, read_u32}
use jungle_week6_coding_sess.Jihyun.Status.{SqlStatus, ok, invalid_query, file_open_failed}
use jungle_week6_coding_sess.Jihyun.Action.{
  Outcome, Action, done, fail, ◌>>=◌, ◌>>◌, pure, modify_state,
}
use jungle_week6_coding_sess.Jihyun.Page.{
  DataPage, PageCursor, page_size, page_can_store_record, page_append_record, page_cursor_init,
  page_cursor_next,
}
use jungle_week6_coding_sess.Libc.Disk.{
  Disk, FilePath, Opened, missing, denied, opened, open_read, open_append,
}
use jungle_week6_coding_sess.Jihyun.Schema.{TableSchema, build_path}
use jungle_week6_coding_sess.Jihyun.Cache.{
  Machine, on_cache, set_page, frame_at, modify_frame, buffer_cache_load_page,
  buffer_cache_create_page, buffer_cache_mark_dirty, buffer_cache_flush_file,
  buffer_cache_flush_all,
}

-- The values of a row; `value_count` is their number.
abbrev pub RowData : Type 0
RowData = List Bytes

unfoldable pub build_table_path : Bytes → Bytes → FilePath
build_table_path data_dir table_name = build_path data_dir table_name (codes ".data")

unfoldable pub ensured : Option Disk → Action Machine (Unit {0})
ensured none m = (fail file_open_failed, m)
ensured (some disk) m = (done tt, record m { disk = disk })

unfoldable pub ensure_table_file : FilePath → Action Machine (Unit {0})
ensure_table_file path m = ensured (open_append m.disk path) m

unfoldable pub pages_of : Opened → Outcome ℕ
pages_of missing = done 0
pages_of denied = fail file_open_failed
pages_of (opened bytes) = done ((length bytes / page_size) % u32_mod)

unfoldable pub get_page_count : FilePath → Action Machine ℕ
get_page_count path m = (pages_of (open_read m.disk path), m)

-- The fields of the first `count` values, each behind its length.
unfoldable pub serialize_fields : ℕ → RowData → Bytes
serialize_fields zero values = []
serialize_fields (suc count) [] = []
serialize_fields (suc count) (value ∷ values) =
    let field_length = length value % u32_mod in
    u32_bytes field_length ++ (take field_length value ++ serialize_fields count values)

unfoldable pub total_length : ℕ → RowData → ℕ
total_length zero values = 4
total_length (suc count) [] = 4
total_length (suc count) (value ∷ values) = 4 + length value + total_length count values

-- The buffer and `*out_length`.
unfoldable pub serialize_row : ℕ → RowData → Bytes × ℕ
serialize_row column_count values = (
  u32_bytes (column_count % u32_mod) ++ serialize_fields column_count values,
  total_length column_count values % u32_mod,
)

-- The loop of deserialize_row: the fields left, and the bytes from `cursor` to `record_end`.
unfoldable pub deserialize_fields : ℕ → Bytes → RowData → Outcome RowData
deserialize_fields zero cursor values = done values
deserialize_fields (suc count) cursor values =
    let field_length = read_u32 cursor in
    let field = drop 4 cursor in
    let later =
      deserialize_fields count (drop field_length field) (values ++ take field_length field ∷ []) in
    if ltb (length cursor) 4
    then fail invalid_query
    else if ltb (length field) field_length
    then fail invalid_query
    else later

unfoldable pub deserialize_row : Bytes → ℕ → Outcome RowData
deserialize_row record_data record_length =
    if ltb record_length 4
    then fail invalid_query
    else deserialize_fields (read_u32 record_data) (drop 4 record_data) []

-- `page->...` through the pointer of the frame at `index`.
abbrev pub page_in : Machine → ℕ → DataPage
page_in m index = (frame_at m.cache index).page

unfoldable pub mark_dirty : FilePath → ℕ → Action Machine (Unit {0})
mark_dirty path page_id = modify_state (on_cache (buffer_cache_mark_dirty path page_id))

-- The last page of the file, or a first one: its id, the frame that holds it, and the count.
unfoldable pub target_page : FilePath → ℕ → Action Machine (ℕ × ℕ × ℕ)
target_page path page_count =
    if page_count == 0
    then (do index ← buffer_cache_create_page path 0; pure (0, index, 1))
    else (do
      index ← buffer_cache_load_page path (page_count - 1)
      pure (page_count - 1, index, page_count))

abbrev pub link_to : ℕ → DataPage → DataPage
link_to next page = record page { header = record page.header { next_page_id = next } }

-- Where the record does not fit: the page is linked to a new one, which takes its place.
unfoldable pub page_with_room : FilePath → ℕ → (ℕ × ℕ × ℕ) → Action Machine (ℕ × ℕ)
page_with_room path record_length (page_id, index, page_count) m =
    if not (page_can_store_record (page_in m index) record_length)
    then (do
      modify_state (on_cache (modify_frame index (λ f. set_page (link_to page_count f.page) f)))
      mark_dirty path page_id
      new_index ← buffer_cache_create_page path page_count
      pure (page_count, new_index))
        m
    else (done (page_id, index), m)

-- page_append_record on the page of a frame, and its status.
unfoldable pub append_to : ℕ → Bytes → ℕ → Action Machine (Unit {0})
append_to index record_data record_length m =
    let (status, page) = page_append_record (page_in m index) record_data record_length in
    let appended = on_cache (modify_frame index (set_page page)) m in
    elim status [ ok ↦ (done tt, appended) | e ↦ (fail e, appended) ]

unfoldable pub storage_insert_row : Bytes → TableSchema → RowData → Action Machine (Unit {0})
storage_insert_row data_dir schema values = do
  let path = build_table_path data_dir schema.table_name
  ensure_table_file path
  page_count ← get_page_count path
  let (record_data, record_length) = serialize_row (length schema.columns) values
  target ← target_page path page_count
  (page_id, index) ← page_with_room path record_length target
  append_to index record_data record_length
  mark_dirty path page_id
  buffer_cache_flush_file path

-- A visitor gets the row and its context, and returns whether to go on.
abbrev pub RowVisitor : Type 0 → Type 0
RowVisitor S = RowData → S → Bool × S

-- How a page's loop ends: by the end of the page, by the visitor, or by a bad record.
pub data Visited : Type 0 where
  page_end stopped : Visited
  bad_record : SqlStatus → Visited

module _ {S : Type 0} (visitor : RowVisitor S) where
  -- The loop over the records of a page, with the number of records as its bound: the cursor
  -- stops there by its own test.
  unfoldable pub visit_records : ℕ → PageCursor → S → Visited × S
  visit_records zero cursor s = (page_end, s)
  visit_records (suc rounds) cursor s = elim (page_cursor_next cursor) [
    | none ↦ (page_end, s)
    | some (record_data, record_length, next) ↦ elim (deserialize_row record_data record_length) [
      | fail e ↦ (bad_record e, s)
      | done row ↦
          let (should_continue, s') = visitor row s in
          let later = visit_records rounds next s' in
          if not should_continue then (stopped, s') else later
    ]
  ]

  unfoldable pub visit_page : DataPage → S → Visited × S
  visit_page page s = visit_records page.row_count (page_cursor_init page) s

  -- The loop over the pages: `rounds` pages from `page_id` on.
  unfoldable pub scan_pages : FilePath → ℕ → ℕ → S → Machine → SqlStatus × S × Machine
  scan_pages path zero page_id s m = (ok, s, m)
  scan_pages path (suc rounds) page_id s m =
      let (loaded, m') = buffer_cache_load_page path page_id m in
      elim loaded [
        | fail e ↦ (e, s, m')
        | done index ↦
            let (visited, s') = visit_page (page_in m' index) s in
            elim visited [
              | page_end ↦ scan_pages path rounds (suc page_id) s' m'
              | stopped ↦ (ok, s', m')
              | bad_record e ↦ (e, s', m')
            ]
      ]

  unfoldable pub storage_scan_rows : Bytes → TableSchema → S → Machine → SqlStatus × S × Machine
  storage_scan_rows data_dir schema s m =
      let path = build_table_path data_dir schema.table_name in
      elim (get_page_count path m).0 [
        | fail e ↦ (e, s, m)
        | done page_count ↦ scan_pages path page_count 0 s m
      ]

unfoldable pub storage_flush : Action Machine (Unit {0})
storage_flush = buffer_cache_flush_all
