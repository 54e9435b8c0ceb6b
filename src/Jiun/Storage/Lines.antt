-- ===== src/Jiun/Storage/Lines.antt =====
-- A table's file as a line for each row, and what a SELECT reads of it.
use jungle_week6_coding_sess.Prelude.{
  ℕ, ◌<◌, ◌≡◌, refl, ap, ◌∙◌, false, Bytes, List, [], ◌∷◌, ◌++◌, append_assoc, map, length, arith,
  All, All-append, Option-cases, inl, inr, some,
}
use jungle_week6_coding_sess.Libc.Text.{fgets_from, fgets_lines, is_space}
use jungle_week6_coding_sess.Libc.Text.Lines.{IsInLine, fgets_from-line, c_string-line}
use jungle_week6_coding_sess.Libc.Disk.{opened}
use jungle_week6_coding_sess.Jiun.Text.{is_empty, rtrim_inplace}
use jungle_week6_coding_sess.Jiun.Cells.{tab, line_feed, escape_of, encode_cell, encode_row}
use jungle_week6_coding_sess.Jiun.Cells.RoundTrip.{
  escaped, IsShort, encode_cell-escaped, IsInCell, escaped-IsInCell,
}
use jungle_week6_coding_sess.Jiun.Storage.{keep_rows, rows_of}

abbrev pub IsCString : Bytes → Type 0
IsCString = All (λ c. 0 < c)

escape_of-pos : (c e : ℕ) → escape_of c ≡ some e → 0 < e
unfolding escape_of
escape_of-pos c e h = ground arith

escaped-IsCString : (value : Bytes) → IsCString value → IsCString (escaped value)
unfolding escaped
escaped-IsCString [] h = tt
escaped-IsCString (c ∷ value) h =
    let rest = escaped-IsCString value h.1 in
    elim (Option-cases (escape_of c)) [
      | inl e ↦ rw e (h.0, rest)
      | inr (b, e) ↦ rw e (omega arith, (escape_of-pos c b e, rest))
    ]

IsInLine-of : (cell : Bytes) → All IsInCell cell → IsCString cell → All IsInLine cell
IsInLine-of [] h k = tt
IsInLine-of (c ∷ cell) h k =
    (record { positive = k.0; no_line_feed = h.0.no_line_feed }, IsInLine-of cell h.1 k.1)

encode_cell-IsInLine :
    (value : Bytes) → IsShort value → IsCString value → All IsInLine (encode_cell value 8192)
encode_cell-IsInLine value h k =
    rw (encode_cell-escaped value h)
      (IsInLine-of (escaped value) (escaped-IsInCell value) (escaped-IsCString value k))

encode_row-IsInLine :
    (row : List Bytes) → All IsShort row → All IsCString row → All IsInLine (encode_row row)
unfolding encode_row
encode_row-IsInLine [] h k = tt
encode_row-IsInLine (value ∷ []) h k = encode_cell-IsInLine value h.0 k.0
encode_row-IsInLine (value ∷ next ∷ row) h k =
    let tab_IsInLine : IsInLine tab = record {
      positive = omega arith;
      no_line_feed = λ q. omega arith;
    } in
    All-append IsInLine (encode_cell value 8192) (tab ∷ encode_row (next ∷ row))
      (encode_cell-IsInLine value h.0 k.0) (tab_IsInLine, encode_row-IsInLine (next ∷ row) h.1 k.1)

rtrim_inplace-line : (bytes : Bytes) → rtrim_inplace (bytes ++ line_feed ∷ []) ≡ rtrim_inplace bytes
unfolding rtrim_inplace is_space
rtrim_inplace-line [] = refl
rtrim_inplace-line (c ∷ bytes) = rw (rtrim_inplace-line bytes)

-- A row whose line is read back: its values are C strings that fit in a plan, and its line fits in
-- the buffer, holds a byte, and has no white space at its end.
pub record IsStored (row : List Bytes) : Type 0 where
  pub short : All IsShort row
  pub strings : All IsCString row
  pub fits : length (encode_row row) < 32767
  pub holds : is_empty (encode_row row) ≡ false
  pub trimmed : rtrim_inplace (encode_row row) ≡ encode_row row

-- The file of a table with these rows.
unfoldable pub file_of : List (List Bytes) → Bytes
file_of [] = []
file_of (row ∷ rows) = encode_row row ++ (line_feed ∷ file_of rows)

pub file_of-snoc :
    (rows : List (List Bytes)) (row : List Bytes)
    → file_of (rows ++ row ∷ []) ≡ file_of rows ++ (encode_row row ++ line_feed ∷ [])
unfolding file_of
file_of-snoc [] row = refl
file_of-snoc (first ∷ rows) row = simp (file_of-snoc rows row, append_assoc)

keep_rows-line :
    (row : List Bytes) (lines : List Bytes)
    → IsStored row
    → keep_rows ((encode_row row ++ line_feed ∷ []) ∷ lines) ≡ encode_row row ∷ keep_rows lines
unfolding keep_rows
keep_rows-line row lines h = rw (
  c_string-line (encode_row row) (encode_row-IsInLine row h.short h.strings),
  rtrim_inplace-line (encode_row row),
  h.trimmed,
  h.holds,
)

-- A SELECT reads the line of every row, in order.
pub rows_of-file_of :
    (rows : List (List Bytes))
    → All IsStored rows
    → rows_of (opened (file_of rows)) ≡ map encode_row rows
unfolding rows_of fgets_lines file_of
rows_of-file_of [] h = unfold fgets_from keep_rows in refl
rows_of-file_of (row ∷ rows) h =
    ap keep_rows (
      fgets_from-line 32768 32767 [] (encode_row row) (file_of rows)
        (encode_row-IsInLine row h.0.short h.0.strings) h.0.fits)
    ∙ keep_rows-line row (fgets_from 32768 32767 [] (file_of rows)) h.0
    ∙ ap (◌∷◌ (encode_row row)) (rows_of-file_of rows h.1)
