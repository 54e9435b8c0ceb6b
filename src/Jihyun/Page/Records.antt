-- ===== src/Jihyun/Page/Records.antt =====
-- The records of a page: what page_append_record adds, the cursor yields.
use jungle_week6_coding_sess.Prelude.{
  ℕ, ◌+◌, ◌%◌, ◌<◌, ◌≤◌, ◌≡◌, refl, ap, ◌∙◌, true, false, Bytes, List, [], ◌∷◌, ◌++◌, some, none,
  append_assoc, append-nil, leb, le→leb, lt→not_leb, arith, length, length-append, take, drop,
  take_all, take-append, drop-append, length-drop, length-replicate,
}
use jungle_week6_coding_sess.Prelude.Words.{
  u32_mod, u32_bytes, read_u32, length-u32_bytes, read_u32-u32_bytes, overwrite, overwrite-append,
}
use jungle_week6_coding_sess.Jihyun.Status.{ok}
use jungle_week6_coding_sess.Jihyun.Page.{
  DataPage, PageCursor, page_payload_size, zero_page, page_init, page_can_store_record,
  page_append_record, page_cursor_next,
}

-- The records, each behind its length.
unfoldable pub encode : List Bytes → Bytes
encode [] = []
encode (r ∷ records) = u32_bytes (length r) ++ (r ++ encode records)

pub encode-append : (rs ss : List Bytes) → encode (rs ++ ss) ≡ encode rs ++ encode ss
unfolding encode
encode-append [] ss = refl
encode-append (r ∷ rs) ss = simp (encode-append rs ss, append_assoc)

pub length-encode_snoc :
    (rs : List Bytes) (r : Bytes)
    → length (encode (rs ++ r ∷ [])) ≡ length (encode rs) + 4 + length r
unfolding encode
length-encode_snoc [] r = omega (
  arith,
  length-append (u32_bytes (length r)) (r ++ []),
  length-u32_bytes (length r),
  length-append r [],
)
length-encode_snoc (s ∷ rs) r = omega (
  arith,
  length-append (u32_bytes (length s)) (s ++ encode (rs ++ r ∷ [])),
  length-append s (encode (rs ++ r ∷ [])),
  length-append (u32_bytes (length s)) (s ++ encode rs),
  length-append s (encode rs),
  length-encode_snoc rs r,
)

-- The page holds exactly these records, from the start of its payload on.
pub record Holds (page : DataPage) (records : List Bytes) : Type 0 where
  pub free : Bytes
  pub layout : page.payload ≡ encode records ++ free
  pub used : page.used_bytes ≡ length (encode records)
  pub count : page.row_count ≡ length records
  pub size : length page.payload ≡ page_payload_size

pub Holds-fits :
    {page : DataPage} {records : List Bytes}
    → Holds page records
    → page.used_bytes ≤ page_payload_size
Holds-fits {page} {records} h =
    omega (arith, h.size, h.used, length-append (encode records) h.free, ap length h.layout)

pub Holds-page_init : (page_id : ℕ) → Holds (page_init page_id) []
unfolding page_init zero_page encode
Holds-page_init page_id = record {
  free = zero_page.payload;
  layout = refl;
  used = refl;
  count = refl;
  size = length-replicate page_payload_size 0;
}

-- Where the sum of the sizes does not overflow, page_can_store_record is the test that the record
-- and its length fit in the payload.
pub page_can_store_record-eq-leb :
    (page : DataPage) (n : ℕ)
    → page.used_bytes + (4 + n) < u32_mod
    → page_can_store_record page n ≡ leb (page.used_bytes + (4 + n)) page_payload_size
unfolding page_can_store_record
page_can_store_record-eq-leb page n h =
    let e : (page.used_bytes + (4 + n) % u32_mod) % u32_mod ≡ page.used_bytes + (4 + n) =
      omega arith in
    rw e

pub count-le-length-encode : (rs : List Bytes) → length rs ≤ length (encode rs)
unfolding encode u32_bytes
count-le-length-encode [] = omega arith
count-le-length-encode (r ∷ rs) =
    omega (arith, length-append r (encode rs), count-le-length-encode rs)

-- The write of the length and the record behind `old`.
overwrite_record :
    (old r free : Bytes)
    → overwrite (length old + 4) r (overwrite (length old) (u32_bytes (length r)) (old ++ free))
      ≡ old ++ (u32_bytes (length r) ++ (r ++ drop (length r) (drop 4 free)))
overwrite_record old r free =
    let word = u32_bytes (length r) in
    let front : length (old ++ word) ≡ length old + 4 =
      omega (arith, length-append old word, length-u32_bytes (length r)) in
    rw
      (
        overwrite-append old word free,
        length-u32_bytes (length r),
        ← append_assoc old word (drop 4 free),
        ← front,
        overwrite-append (old ++ word) r (drop 4 free),
      )
      (append_assoc old word (r ++ drop (length r) (drop 4 free)))

module _ {page : DataPage} {records : List Bytes} (h : Holds page records) (r : Bytes) where
  -- The page behind the call, if the record fits.
  abbrev pub appended : DataPage
  appended = record page {
    header = record page.header {
      used_bytes = page.used_bytes + (4 + length r);
      row_count = page.row_count + 1;
    };
    payload = encode records ++ (u32_bytes (length r) ++ (r ++ drop (length r) (drop 4 h.free)));
  }

  pub page_append_record-fits :
      page.used_bytes + (4 + length r) ≤ page_payload_size
      → page_append_record page r (length r) ≡ (ok, appended)
  unfolding page_append_record
  page_append_record-fits fits =
      let room : leb (page.used_bytes + (4 + length r)) page_payload_size ≡ true =
        le→leb _ _ fits in
      let used : (page.used_bytes + (4 + length r) % u32_mod) % u32_mod
          ≡ page.used_bytes + (4 + length r) =
        omega arith in
      let count : (page.row_count + 1) % u32_mod ≡ page.row_count + 1 =
        omega (arith, h.count, Holds-fits h, h.used, count-le-length-encode records) in
      let start : (page.used_bytes + 4) % u32_mod ≡ length (encode records) + 4 =
        omega (arith, h.used) in
      let payload : overwrite (length (encode records) + 4) r
            (overwrite page.used_bytes (u32_bytes (length r)) page.payload)
          ≡ appended.payload =
        rw (h.used, h.layout) (overwrite_record (encode records) r h.free) in
      rw
        (
          page_can_store_record-eq-leb page (length r) (omega arith),
          room,
          used,
          count,
          start,
          take_all (length r) r (omega arith),
        )
        (λ i. (ok, record appended { payload = payload i }))

  -- A record that fits is added behind the others.
  pub page_append_record-Holds :
      page.used_bytes + (4 + length r) ≤ page_payload_size → Holds appended (records ++ r ∷ [])
  page_append_record-Holds fits = record {
    free = drop (length r) (drop 4 h.free);
    layout = unfold encode in simp (encode-append records (r ∷ []), append_assoc, append-nil);
    used = omega (arith, h.used, length-encode_snoc records r);
    count = omega (arith, h.count, length-append records (r ∷ []));
    size = omega (
      arith,
      h.used,
      h.size,
      ap length h.layout,
      length-append (encode records) h.free,
      length-append (encode records)
          (u32_bytes (length r) ++ (r ++ drop (length r) (drop 4 h.free))),
      length-append (u32_bytes (length r)) (r ++ drop (length r) (drop 4 h.free)),
      length-append r (drop (length r) (drop 4 h.free)),
      length-drop (length r) (drop 4 h.free),
      length-drop 4 h.free,
      length-u32_bytes (length r),
    );
  }

-- On a page that holds some records, a record that fits is added behind them.
pub page_append_record-adds :
    {page : DataPage} {records : List Bytes}
    → Holds page records
    → (r : Bytes) → page.used_bytes + (4 + length r) ≤ page_payload_size
    → (after : DataPage) × (page_append_record page r (length r) ≡ (ok, after))
      × Holds after (records ++ r ∷ [])
page_append_record-adds h r fits =
    (appended h r, page_append_record-fits h r fits, page_append_record-Holds h r fits)

-- The cursor behind the records `seen`.
abbrev pub cursor_after : DataPage → List Bytes → PageCursor
cursor_after page seen = record {
  page = page;
  offset = length (encode seen);
  yielded = length seen;
}

module _ {page : DataPage} (seen : List Bytes) (r : Bytes) (rest : List Bytes)
    (h : Holds page (seen ++ r ∷ rest)) where
  later : Bytes
  later = encode rest ++ h.free

  layout_at : page.payload ≡ encode seen ++ (u32_bytes (length r) ++ (r ++ later))
  unfolding later
  layout_at = h.layout ∙ simp (encode-append seen (r ∷ rest)) (unfold encode in simp append_assoc)

  sizes : length (encode seen) + 4 + length r + length later ≡ page_payload_size
  sizes = omega (
    arith,
    h.size,
    ap length layout_at,
    length-append (encode seen) (u32_bytes (length r) ++ (r ++ later)),
    length-append (u32_bytes (length r)) (r ++ later),
    length-append r later,
    length-u32_bytes (length r),
  )

  used_after : length (encode seen) < page.used_bytes
  unfolding encode
  used_after = omega (
    arith,
    h.used,
    ap length (encode-append seen (r ∷ rest)),
    length-append (encode seen) (encode (r ∷ rest)),
    length-append (u32_bytes (length r)) (r ++ encode rest),
    length-u32_bytes (length r),
  )

  read_length : read_u32 (drop (length (encode seen)) page.payload) ≡ length r
  read_length =
      rw (layout_at, drop-append _ (encode seen) (u32_bytes (length r) ++ (r ++ later)) refl)
        (read_u32-u32_bytes (length r) (r ++ later) (omega (arith, sizes)))

  read_record : take (length r) (drop (length (encode seen) + 4) page.payload) ≡ r
  read_record =
      let word = u32_bytes (length r) in
      rw
        (
          layout_at,
          ← append_assoc (encode seen) word (r ++ later),
          drop-append (length (encode seen) + 4) (encode seen ++ word) (r ++ later)
              (omega (arith, length-append (encode seen) word, length-u32_bytes (length r))),
        )
        (take-append (length r) r later refl)

  -- On a page that holds some records, the cursor behind the first ones yields the next record, and
  -- then stands behind it.
  pub page_cursor_next-cons :
      page_cursor_next (cursor_after page seen)
      ≡ some (r, length r, cursor_after page (seen ++ r ∷ []))
  unfolding page_cursor_next
  page_cursor_next-cons =
      let n = length (encode seen) in
      let more : leb page.row_count (length seen) ≡ false =
        lt→not_leb _ _ (omega (arith, h.count, length-append seen (r ∷ rest))) in
      let start : (n + 4) % u32_mod ≡ n + 4 = omega (arith, sizes) in
      let next : (n + 4 + length r) % u32_mod ≡ length (encode (seen ++ r ∷ [])) =
        omega (arith, sizes, length-encode_snoc seen r) in
      let yielded : (length seen + 1) % u32_mod ≡ length (seen ++ r ∷ []) =
        omega (arith, sizes, length-append seen (r ∷ []), count-le-length-encode seen) in
      rw (more, lt→not_leb _ _ used_after, start, read_length, next, yielded, read_record)

pub page_cursor_next-end :
    {page : DataPage} (seen : List Bytes)
    → Holds page seen
    → page_cursor_next (cursor_after page seen) ≡ none
unfolding page_cursor_next
page_cursor_next-end seen h = rw (le→leb _ _ (le_of_eq h.count))
  where
    le_of_eq : {a b : ℕ} → a ≡ b → a ≤ b
    le_of_eq e = omega arith
