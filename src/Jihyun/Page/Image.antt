-- ===== src/Jihyun/Page/Image.antt =====
-- A page and its bytes in the file.
use jungle_week6_coding_sess.Prelude.{◌<◌, ◌≡◌, arith, length, drop, length-drop, Bytes}
use jungle_week6_coding_sess.Prelude.Words.{u32_mod, u32_bytes, read_u32, read_u32-lt}
use jungle_week6_coding_sess.Jihyun.Page.{
  DataPage, page_size, page_payload_size, page_bytes, page_of_bytes,
}

-- The header fields are of type uint32_t and the payload is an array of its size.
pub record IsSized (page : DataPage) : Type 0 where
  pub page_id : page.page_id < u32_mod
  pub next_page_id : page.next_page_id < u32_mod
  pub row_count : page.row_count < u32_mod
  pub used_bytes : page.used_bytes < u32_mod
  pub payload : length page.payload ≡ page_payload_size

pub length-page_bytes :
    (page : DataPage)
    → length page.payload ≡ page_payload_size
    → length (page_bytes page) ≡ page_size
unfolding page_bytes u32_bytes
length-page_bytes page h = omega arith

-- A page whose fields have the sizes of their types, written to a file and read back, is the page.
pub page_of_bytes-page_bytes :
    (page : DataPage) → IsSized page → page_of_bytes (page_bytes page) ≡ page
unfolding page_of_bytes page_bytes read_u32 u32_bytes drop
page_of_bytes-page_bytes page h = λ i. record {
  header = record { page_id = e1 i; next_page_id = e2 i; row_count = e3 i; used_bytes = e4 i };
  payload = page.payload;
}
  where
    e1 : read_u32 (u32_bytes page.page_id) ≡ page.page_id
    e1 = omega (arith, h.page_id)

    e2 : read_u32 (u32_bytes page.next_page_id) ≡ page.next_page_id
    e2 = omega (arith, h.next_page_id)

    e3 : read_u32 (u32_bytes page.row_count) ≡ page.row_count
    e3 = omega (arith, h.row_count)

    e4 : read_u32 (u32_bytes page.used_bytes) ≡ page.used_bytes
    e4 = omega (arith, h.used_bytes)

-- Whatever a whole page of a file holds, it is a page of the right sizes.
pub IsSized-page_of_bytes :
    (bytes : Bytes) → length bytes ≡ page_size → IsSized (page_of_bytes bytes)
unfolding page_of_bytes
IsSized-page_of_bytes bytes h = record {
  page_id = read_u32-lt bytes;
  next_page_id = read_u32-lt (drop 4 bytes);
  row_count = read_u32-lt (drop 8 bytes);
  used_bytes = read_u32-lt (drop 12 bytes);
  payload = omega (arith, length-drop 16 bytes);
}
