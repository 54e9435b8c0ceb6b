-- ===== src/Jihyun/Text.antt =====
-- utils.c: the string helpers. A `char *` is the list of the bytes before its NUL, a pointer into
-- a string is the rest of the string from there, and a range is the list of its bytes.
pub mod Trim
pub mod Compare
use jungle_week6_coding_sess.Prelude.{
  ℕ, suc, ◌+◌, ◌-◌, Bool, true, false, not, ◌&&◌, ◌||◌, Option, none, some, Bytes, [], ◌∷◌, map,
  ltb, leb, ◌==◌, if◌then◌else◌, length, take, drop, get_or, zero,
}
use jungle_week6_coding_sess.Prelude.Words.{overwrite}
use mathlib.Core.List.{reverse}
unfoldable pub use jungle_week6_coding_sess.Libc.Text.{is_space, is_alnum, to_lower, char_at}

-- util_skip_spaces: the position after the leading white space.
unfoldable pub skip_spaces : Bytes → Bytes
skip_spaces [] = []
skip_spaces (c ∷ cs) = let rest = skip_spaces cs in if is_space c then rest else c ∷ cs

-- `while (right > left && isspace(right[-1])) right--;`: the same walk from the other end.
unfoldable pub trim_right : Bytes → Bytes
trim_right s = reverse (skip_spaces (reverse s))

unfoldable pub trim_copy_range : Bytes → Bytes
trim_copy_range range = trim_right (skip_spaces range)

-- `while (*start != '\0' && isspace(*start)) start++;`: how far `start` is from `text`.
unfoldable pub leading_spaces : Bytes → ℕ
leading_spaces [] = 0
leading_spaces (c ∷ cs) = let more = leading_spaces cs in if is_space c then suc more else 0

-- `while (end > start && isspace(end[-1])) end--;` from `end - start` on: what `end - start` then is.
unfoldable pub end_from : ℕ → Bytes → ℕ
end_from zero start = 0
end_from (suc n) start =
    let before = end_from n start in if is_space (get_or start n 0) then before else suc n

-- The string that `text` holds afterwards. The memmove writes the bytes of the middle over the
-- front, what stands behind them stays, and the NUL at `trimmed_length` ends the string there.
unfoldable pub trim_inplace : Bytes → Bytes
trim_inplace [] = []
trim_inplace (c ∷ cs) =
    let text = c ∷ cs in
    let start = drop (leading_spaces text) text in
    let trimmed_length = end_from (length start) start in
    let moved = overwrite 0 (take trimmed_length start) text in
    if not (leading_spaces text == 0) && ltb 0 trimmed_length
    then take trimmed_length moved
    else if trimmed_length == 0
    then take 0 text
    else take trimmed_length text

unfoldable pub lowercase_inplace : Bytes → Bytes
lowercase_inplace = map to_lower

-- The sign and the size of the `int` that util_case_cmp returns.
pub data Difference : Type 0 where
  pos : ℕ → Difference
  negsuc : ℕ → Difference

unfoldable pub char_difference : ℕ → ℕ → Difference
char_difference a b = if ltb a b then negsuc (b - a - 1) else pos (a - b)

unfoldable pub case_cmp : Bytes → Bytes → Difference
case_cmp (l ∷ left) (r ∷ right) =
    let rest = case_cmp left right in
    if to_lower l == to_lower r then rest else char_difference (to_lower l) (to_lower r)
case_cmp left right = char_difference (to_lower (char_at left)) (to_lower (char_at right))

unfoldable pub is_zero : Difference → Bool
is_zero (pos n) = n == 0
is_zero (negsuc _) = false

unfoldable pub case_equal : Bytes → Bytes → Bool
case_equal left right = is_zero (case_cmp left right)

unfoldable pub case_starts_with : Bytes → Bytes → Bool
case_starts_with text [] = true
case_starts_with [] (p ∷ prefix) = false
case_starts_with (t ∷ text) (p ∷ prefix) =
    if to_lower t == to_lower p then case_starts_with text prefix else false

unfoldable pub is_blank_string : Bytes → Bool
is_blank_string [] = true
is_blank_string (c ∷ cs) = if not (is_space c) then false else is_blank_string cs

unfoldable pub is_identifier_boundary : ℕ → Bool
is_identifier_boundary c = c == 0 || is_space c || c == b',' || c == b'(' || c == b')' || c == b';'

-- The scanners share how they read quotes. `in_quotes` is the mode `inside` or `escaped`; in the
-- mode `escaped` the next byte is the second quote of a pair `''`, which the code steps over.
pub data Quoting : Type 0 where
  outside inside escaped : Quoting

unfoldable pub in_quotes : Quoting → Bool
in_quotes outside = false
in_quotes inside = true
in_quotes escaped = true

-- At a quote, before `rest`: `if (in_quotes && text[index + 1] == '\'')` or the toggle.
unfoldable pub at_quote : Quoting → Bytes → Quoting
at_quote outside rest = inside
at_quote inside rest = if char_at rest == b'\'' then escaped else outside
at_quote escaped rest = inside

-- The mode after the byte `c`, which `rest` follows.
unfoldable pub next_quoting : Quoting → ℕ → Bytes → Quoting
next_quoting escaped c rest = inside
next_quoting outside c rest = if c == b'\'' then at_quote outside rest else outside
next_quoting inside c rest = if c == b'\'' then at_quote inside rest else inside

-- `index > 0 && !is_identifier_boundary(text[index - 1])`
unfoldable pub starts_mid_word : Option ℕ → Bool
starts_mid_word none = false
starts_mid_word (some before) = not (is_identifier_boundary before)

-- The test of one position outside quotes, for a byte that is no quote.
unfoldable pub keyword_here : Bytes → Option ℕ → Bytes → Bool
keyword_here keyword before text =
    not (starts_mid_word before)
    && case_starts_with text keyword
    && is_identifier_boundary (char_at (drop (length keyword) text))

-- The loop: the byte before the position, the quoting mode, the index and the rest of the text.
unfoldable pub find_keyword_from : Bytes → Option ℕ → Quoting → ℕ → Bytes → Option ℕ
find_keyword_from keyword before mode index [] = none
find_keyword_from keyword before mode index (c ∷ rest) =
    let later = find_keyword_from keyword (some c) (next_quoting mode c rest) (suc index) rest in
    if not (c == b'\'') && not (in_quotes mode) && keyword_here keyword before (c ∷ rest)
    then some index
    else later

unfoldable pub find_keyword_outside_quotes : Bytes → Bytes → Option ℕ
find_keyword_outside_quotes text keyword = find_keyword_from keyword none outside 0 text
