-- ===== src/Dragon/Rows.antt =====
-- file_storage.c: the format of a row, each value behind its length.
pub mod RoundTrip
use jungle_week6_coding_sess.Prelude.{
  ℕ, zero, suc, ◌+◌, ◌%◌, ◌^◌, Bool, true, false, not, ◌&&◌, ◌||◌, Option, none, some, Bytes, List,
  [], ◌∷◌, ◌++◌, ◌==◌, ltb, leb, if◌then◌else◌, length, take, drop,
}
use jungle_week6_coding_sess.Prelude.Chain.{◌>>=◌, ◌>>◌, guard}
use jungle_week6_coding_sess.Libc.Text.{is_digit, char_at, decimal}
use jungle_week6_coding_sess.Libc.Text.Numbers.{read_digits}
use jungle_week6_coding_sess.Dragon.Types.{max_value_len}

abbrev pub line_feed : ℕ
line_feed = 10

abbrev pub carriage_return : ℕ
carriage_return = 13

-- The loop of write_encoded_row, without the line feed.
unfoldable pub encode_values : List Bytes → Bytes
encode_values [] = []
encode_values (value ∷ values) = decimal (length value) ++ (b':' ∷ value ++ encode_values values)

unfoldable pub write_encoded_row : List Bytes → Bytes
write_encoded_row values = encode_values values ++ line_feed ∷ []

-- The digits and the colon. The length is a size_t and wraps.
unfoldable pub parse_next_length : Bytes → Option (ℕ × Bytes)
parse_next_length cursor =
    let (len, rest) = read_digits 0 cursor in
    if not (is_digit (char_at cursor)) || not (char_at rest == b':')
    then none
    else some (len % 2 ^ 64, drop 1 rest)

-- The loop over the columns: the values and the rest of the line.
unfoldable pub parse_values : ℕ → Bytes → Option (List Bytes × Bytes)
parse_values zero cursor = some ([], cursor)
parse_values (suc columns) cursor = do
  (len, p) ← parse_next_length cursor
  guard (ltb len max_value_len && leb len (length p))
  (values, rest) ← parse_values columns (drop len p)
  some (take len p ∷ values, rest)

-- Only line ends are left.
unfoldable pub is_line_end : Bytes → Bool
is_line_end [] = true
is_line_end (c ∷ rest) =
    let later = is_line_end rest in if c == carriage_return || c == line_feed then later else false

unfoldable pub parse_encoded_row : Bytes → ℕ → Option (List Bytes)
parse_encoded_row line expected_columns = do
  (values, rest) ← parse_values expected_columns line
  guard (is_line_end rest)
  some values
