-- ===== src/Jihyun/Page.antt =====
-- page.c and include/page.h: a page of 4096 bytes, and the records in it.
pub mod Records
pub mod Image
use jungle_week6_coding_sess.Prelude.{
  ℕ, ◌+◌, ◌%◌, Bool, ◌||◌, Option, none, some, Bytes, ◌++◌, leb, if◌then◌else◌, take, drop,
  replicate,
}
use jungle_week6_coding_sess.Prelude.Words.{u32_mod, u32_bytes, read_u32, overwrite}
use jungle_week6_coding_sess.Jihyun.Status.{SqlStatus, ok, internal_error}

abbrev pub page_size : ℕ
page_size = 4096

abbrev pub page_payload_size : ℕ
page_payload_size = 4080

abbrev pub page_no_page : ℕ
page_no_page = 0xffff_ffff

pub record PageHeader : Type 0 where
  pub page_id : ℕ
  pub next_page_id : ℕ
  pub row_count : ℕ
  pub used_bytes : ℕ

pub record DataPage : Type 0 where
  pub header : PageHeader
  pub open header use *
  pub payload : Bytes

pub record PageCursor : Type 0 where
  pub page : DataPage
  pub offset : ℕ
  pub yielded : ℕ

-- `memset(page, 0, sizeof(*page))`
unfoldable pub zero_page : DataPage
zero_page = record {
  header = record { page_id = 0; next_page_id = 0; row_count = 0; used_bytes = 0 };
  payload = replicate page_payload_size 0;
}

unfoldable pub page_init : ℕ → DataPage
page_init page_id = record zero_page {
  header = record zero_page.header { page_id = page_id; next_page_id = page_no_page };
}

-- The sums are of type uint32_t.
unfoldable pub page_can_store_record : DataPage → ℕ → Bool
page_can_store_record page record_len =
    let required = (4 + record_len) % u32_mod in
    leb ((page.used_bytes + required) % u32_mod) page_payload_size

unfoldable pub page_append_record : DataPage → Bytes → ℕ → SqlStatus × DataPage
page_append_record page record_data record_len =
    let offset = page.used_bytes in
    let with_length = overwrite offset (u32_bytes record_len) page.payload in
    let with_record =
      overwrite ((offset + 4) % u32_mod) (take record_len record_data) with_length in
    if page_can_store_record page record_len
    then (
      ok,
      record page {
        header = record page.header {
          used_bytes = (page.used_bytes + (4 + record_len) % u32_mod) % u32_mod;
          row_count = (page.row_count + 1) % u32_mod;
        };
        payload = with_record;
      },
    )
    else (internal_error, page)

unfoldable pub page_cursor_init : DataPage → PageCursor
page_cursor_init page = record { page = page; offset = 0; yielded = 0 }

-- The record as the bytes from `record_data` on, its length, and the cursor behind it. Memory
-- behind the payload is not modelled: a record that reaches there is cut.
unfoldable pub page_cursor_next : PageCursor → Option (Bytes × ℕ × PageCursor)
page_cursor_next cursor =
    let length_at = drop cursor.offset cursor.page.payload in
    let len = read_u32 length_at in
    let start = (cursor.offset + 4) % u32_mod in
    if leb cursor.page.row_count cursor.yielded || leb cursor.page.used_bytes cursor.offset
    then none
    else some (
      take len (drop start cursor.page.payload),
      len,
      record cursor { offset = (start + len) % u32_mod; yielded = (cursor.yielded + 1) % u32_mod },
    )

-- The page as `fwrite(&page, 1, sizeof page, file)` writes it, on a little-endian machine.
unfoldable pub page_bytes : DataPage → Bytes
page_bytes page =
    u32_bytes page.page_id
    ++ (u32_bytes page.next_page_id
        ++ (u32_bytes page.row_count ++ (u32_bytes page.used_bytes ++ page.payload)))

-- The page that `fread` leaves in memory.
unfoldable pub page_of_bytes : Bytes → DataPage
page_of_bytes bytes = record {
  header = record {
    page_id = read_u32 bytes;
    next_page_id = read_u32 (drop 4 bytes);
    row_count = read_u32 (drop 8 bytes);
    used_bytes = read_u32 (drop 12 bytes);
  };
  payload = drop 16 bytes;
}
