-- ===== src/Hyeonok/Storage/Lines.antt =====
-- A table's file as a line for each row.
use jungle_week6_coding_sess.Prelude.{
  ℕ, arith, ◌≡◌, ◌≢◌, ◌<◌, refl, ap, ◌∙◌, false, Bytes, List, [], ◌∷◌, ◌++◌, append_assoc,
  append-nil, map, ◌==◌, All, All-append,
}
use jungle_week6_coding_sess.Libc.Disk.{c_string}
use jungle_week6_coding_sess.Hyeonok.Storage.{tab, line_feed, escape, write_escaped_text, row_text}
use jungle_week6_coding_sess.Hyeonok.Executor.{lines_from}

abbrev IsInLine : ℕ → Type 0
IsInLine c = c ≢ line_feed

abbrev IsPositive : ℕ → Type 0
IsPositive c = 0 < c

-- A C string: no NUL among its bytes.
abbrev pub IsString : Bytes → Type 0
IsString = All IsPositive

escape-IsInLine : (c : ℕ) → All IsInLine (escape c)
unfolding escape
escape-IsInLine c = ground arith

escape-IsString : (c : ℕ) → 0 < c → IsString (escape c)
unfolding escape
escape-IsString c h = ground arith

write_escaped_text-IsInLine : (text : Bytes) → All IsInLine (write_escaped_text text)
unfolding write_escaped_text
write_escaped_text-IsInLine [] = tt
write_escaped_text-IsInLine (c ∷ text) =
    All-append IsInLine (escape c) (write_escaped_text text) (escape-IsInLine c)
      (write_escaped_text-IsInLine text)

write_escaped_text-IsString : (text : Bytes) → IsString text → IsString (write_escaped_text text)
unfolding write_escaped_text
write_escaped_text-IsString [] h = tt
write_escaped_text-IsString (c ∷ text) h =
    All-append IsPositive (escape c) (write_escaped_text text) (escape-IsString c h.0)
      (write_escaped_text-IsString text h.1)

row_text-IsInLine : (row : List Bytes) → All IsInLine (row_text row)
unfolding row_text
row_text-IsInLine [] = tt
row_text-IsInLine (value ∷ []) = write_escaped_text-IsInLine value
row_text-IsInLine (value ∷ next ∷ row) =
    All-append IsInLine (write_escaped_text value) (tab ∷ row_text (next ∷ row))
      (write_escaped_text-IsInLine value) ((λ q. omega arith), row_text-IsInLine (next ∷ row))

row_text-IsString : (row : List Bytes) → All IsString row → IsString (row_text row)
unfolding row_text
row_text-IsString [] h = tt
row_text-IsString (value ∷ []) h = write_escaped_text-IsString value h.0
row_text-IsString (value ∷ next ∷ row) h =
    All-append IsPositive (write_escaped_text value) (tab ∷ row_text (next ∷ row))
      (write_escaped_text-IsString value h.0) (omega arith, row_text-IsString (next ∷ row) h.1)

-- The file of a table with these rows.
unfoldable pub table_file : List (List Bytes) → Bytes
table_file [] = []
table_file (row ∷ rows) = row_text row ++ (line_feed ∷ table_file rows)

pub table_file-snoc :
    (rows : List (List Bytes)) (row : List Bytes)
    → table_file (rows ++ row ∷ []) ≡ table_file rows ++ (row_text row ++ line_feed ∷ [])
unfolding table_file
table_file-snoc [] row = refl
table_file-snoc (first ∷ rows) row = simp (table_file-snoc rows row, append_assoc)

table_file-IsString :
    (rows : List (List Bytes)) → All (All IsString) rows → IsString (table_file rows)
unfolding table_file
table_file-IsString [] h = tt
table_file-IsString (row ∷ rows) h =
    All-append IsPositive (row_text row) (line_feed ∷ table_file rows) (row_text-IsString row h.0)
      (omega arith, table_file-IsString rows h.1)

c_string-IsString : (bytes : Bytes) → IsString bytes → c_string bytes ≡ bytes
unfolding c_string
c_string-IsString [] h = refl
c_string-IsString (c ∷ bytes) h =
    let other : (c == 0) ≡ false = ground (arith, h.0) in
    rw other (ap (◌∷◌ c) (c_string-IsString bytes h.1))

-- The file is read whole.
pub c_string-table_file :
    (rows : List (List Bytes))
    → All (All IsString) rows
    → c_string (table_file rows) ≡ table_file rows
c_string-table_file rows h = c_string-IsString (table_file rows) (table_file-IsString rows h)

lines_from-line :
    (line bytes rest : Bytes)
    → All IsInLine bytes
    → lines_from line (bytes ++ (line_feed ∷ rest)) ≡ (line ++ bytes) ∷ lines_from [] rest
unfolding lines_from
lines_from-line line [] rest h = rw append-nil refl
lines_from-line line (c ∷ bytes) rest h =
    let other : (c == line_feed) ≡ false = ground (arith, h.0) in
    rw other (
      lines_from-line (line ++ c ∷ []) bytes rest h.1
      ∙ ap (λ first. first ∷ lines_from [] rest) (append_assoc line (c ∷ []) bytes))

-- The lines of the file are those of its rows, in order.
pub lines_from-table_file :
    (rows : List (List Bytes)) → lines_from [] (table_file rows) ≡ map row_text rows
unfolding table_file
lines_from-table_file [] = unfold lines_from in refl
lines_from-table_file (row ∷ rows) =
    lines_from-line [] (row_text row) (table_file rows) (row_text-IsInLine row)
    ∙ ap (◌∷◌ (row_text row)) (lines_from-table_file rows)
