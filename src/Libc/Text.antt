-- ===== src/Libc/Text.antt =====
-- The calls of ctype.h and string.h. A C string is the list of the bytes before its NUL, and a
-- pointer into a string is the rest of the string from there.
pub mod Search
pub mod Numbers
pub mod Decimal
pub mod Lines
use jungle_week6_coding_sess.Prelude.{
  ℕ, zero, suc, ◌+◌, ◌-◌, ◌/◌, ◌%◌, Bool, List, ◌++◌, true, false, ◌&&◌, ◌||◌, Option, none, some,
  Bytes, [], ◌∷◌, ltb, leb, ◌==◌, if◌then◌else◌, length,
}

-- `isspace`, `isdigit`, `isalpha`, `isalnum` and `tolower` in the C locale.
unfoldable pub is_space : ℕ → Bool
is_space c = c == 32 || (leb 9 c && leb c 13)

unfoldable pub is_digit : ℕ → Bool
is_digit c = leb b'0' c && leb c b'9'

unfoldable pub is_alpha : ℕ → Bool
is_alpha c = (leb b'A' c && leb c b'Z') || (leb b'a' c && leb c b'z')

unfoldable pub is_alnum : ℕ → Bool
is_alnum c = (leb b'0' c && leb c b'9') || (leb b'A' c && leb c b'Z') || (leb b'a' c && leb c b'z')

unfoldable pub to_lower : ℕ → ℕ
to_lower c = if leb b'A' c && leb c b'Z' then c + 32 else c

-- The byte at a position: NUL at the end of the string.
unfoldable pub char_at : Bytes → ℕ
char_at [] = 0
char_at (c ∷ _) = c

-- `strncmp(text, prefix, strlen(prefix)) == 0`
unfoldable pub starts_with : Bytes → Bytes → Bool
starts_with text [] = true
starts_with [] (p ∷ prefix) = false
starts_with (t ∷ text) (p ∷ prefix) = if t == p then starts_with text prefix else false

-- `strstr` and `strchr`: the rest of the text from the first match on.
unfoldable pub strstr : Bytes → Bytes → Option Bytes
strstr [] needle = if length needle == 0 then some [] else none
strstr (c ∷ rest) needle =
    let later = strstr rest needle in
    if starts_with (c ∷ rest) needle then some (c ∷ rest) else later

unfoldable pub strchr : Bytes → ℕ → Option Bytes
strchr [] wanted = none
strchr (c ∷ rest) wanted =
    let later = strchr rest wanted in if c == wanted then some (c ∷ rest) else later

-- `strcmp(left, right) < 0`, by the bytes as numbers.
unfoldable pub str_less : Bytes → Bytes → Bool
str_less left [] = false
str_less [] (r ∷ right) = true
str_less (l ∷ left) (r ∷ right) = let rest = str_less left right in if l == r then rest else ltb l r

-- `%llu` and `%d` of a number that is not negative: below 2^64 it has at most twenty digits.
unfoldable pub digits : ℕ → ℕ → Bytes
digits zero n = []
digits (suc fuel) n =
    let front = digits fuel (n / 10) in
    if ltb n 10 then (48 + n) ∷ [] else front ++ (48 + n % 10) ∷ []

unfoldable pub decimal : ℕ → Bytes
decimal = digits 20

-- The words of a text, as a series of calls of `strtok_r` with one delimiter gives them: an empty
-- word is none. `word` is what was read since the last delimiter.
unfoldable pub tokens_from : ℕ → Bytes → Bytes → List Bytes
tokens_from delim word [] = if length word == 0 then [] else word ∷ []
tokens_from delim word (c ∷ rest) =
    let later = tokens_from delim [] rest in
    let same = tokens_from delim (word ++ c ∷ []) rest in
    if c == delim then (if length word == 0 then later else word ∷ later) else same

unfoldable pub tokens : ℕ → Bytes → List Bytes
tokens delim text = tokens_from delim [] text

-- What the calls of `fgets` with a buffer of `size` bytes read, one after the other: up to a line
-- feed, or `size - 1` bytes. `left` bytes have room behind `line`.
unfoldable pub fgets_from : ℕ → ℕ → Bytes → Bytes → List Bytes
fgets_from size left line [] = if length line == 0 then [] else line ∷ []
fgets_from size left line (c ∷ rest) =
    let full = (line ++ c ∷ []) ∷ fgets_from size (size - 1) [] rest in
    let more = fgets_from size (left - 1) (line ++ c ∷ []) rest in
    if c == 10 || leb left 1 then full else more

unfoldable pub fgets_lines : ℕ → Bytes → List Bytes
fgets_lines size bytes = fgets_from size (size - 1) [] bytes
