-- ===== src/Jiun/Cells.antt =====
-- The format of infrastructure/storage.c: cells with escapes, between tabs.
pub mod RoundTrip
pub mod Words
use jungle_week6_coding_sess.Prelude.{
  ℕ, zero, suc, ◌+◌, Bool, not, ◌&&◌, Option, none, some, Bytes, List, [], ◌∷◌, ◌++◌, ◌==◌, ltb,
  if◌then◌else◌, take, map, maybe,
}
use jungle_week6_coding_sess.Libc.Text.{tokens}
use jungle_week6_coding_sess.Jiun.Types.{max_columns}

abbrev pub tab : ℕ
tab = 9

abbrev pub line_feed : ℕ
line_feed = 10

abbrev pub carriage_return : ℕ
carriage_return = 13

-- The byte behind the backslash, for a byte that is written with one.
unfoldable pub escape_of : ℕ → Option ℕ
escape_of c =
    if c == b'\\'
    then some b'\\'
    else if c == tab
    then some b't'
    else if c == line_feed
    then some b'n'
    else if c == carriage_return
    then some b'r'
    else none

-- The loop of encode_cell, with `j` bytes written.
unfoldable pub encode_from : ℕ → ℕ → Bytes → Bytes
encode_from dst_sz j [] = []
encode_from dst_sz j (c ∷ rest) =
    let plain = c ∷ encode_from dst_sz (j + 1) rest in
    let pair = encode_from dst_sz (j + 2) rest in
    if not (ltb (j + 2) dst_sz) then [] else maybe (escape_of c) plain (λ e. b'\\' ∷ e ∷ pair)

unfoldable pub encode_cell : Bytes → ℕ → Bytes
encode_cell src dst_sz = encode_from dst_sz 0 src

unfoldable pub unescape_byte : ℕ → ℕ
unescape_byte c =
    if c == b'n'
    then line_feed
    else if c == b't'
    then tab
    else if c == b'r'
    then carriage_return
    else c

-- The loop of decode_cell, with `j` bytes written.
unfoldable pub decode_from : ℕ → ℕ → Bytes → Bytes
decode_from dst_sz j [] = []
decode_from dst_sz j (c ∷ []) = if not (ltb (j + 1) dst_sz) then [] else c ∷ []
decode_from dst_sz j (c ∷ d ∷ rest) =
    let escaped = unescape_byte d ∷ decode_from dst_sz (j + 1) rest in
    let plain = c ∷ decode_from dst_sz (j + 1) (d ∷ rest) in
    if not (ltb (j + 1) dst_sz) then [] else if c == b'\\' then escaped else plain

unfoldable pub decode_cell : Bytes → ℕ → Bytes
decode_cell src dst_sz = decode_from dst_sz 0 src

-- At most `max_fields` of the words between tabs.
unfoldable pub split_tab_line : Bytes → ℕ → List Bytes
split_tab_line line max_fields =
    map (λ tok. decode_cell tok 4096) (take max_fields (tokens tab line))

-- The cells of a row, with a tab between two of them.
unfoldable pub encode_row : List Bytes → Bytes
encode_row [] = []
encode_row (value ∷ []) = encode_cell value 8192
encode_row (value ∷ next ∷ values) = encode_cell value 8192 ++ (tab ∷ encode_row (next ∷ values))
