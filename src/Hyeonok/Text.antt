-- ===== src/Hyeonok/Text.antt =====
-- util.c, and the helpers of parser.c that read a word. A parser that moves `cursor` returns the
-- rest of the text.
use jungle_week6_coding_sess.Prelude.{
  ℕ, Bool, true, false, not, ◌&&◌, ◌||◌, Option, none, some, Bytes, [], ◌∷◌, ◌==◌, if◌then◌else◌,
  drop,
}
use jungle_week6_coding_sess.Libc.Text.{is_space, is_alnum, to_lower, char_at}
use jungle_week6_coding_sess.Libc.Disk.{
  Disk, FilePath, missing, denied, opened, open_read, c_string,
}

abbrev pub is_empty : Bytes → Bool
is_empty [] = true
is_empty (_ ∷ _) = false

-- read_entire_file, as the C string that its callers take it for.
unfoldable pub read_entire_file : Disk → FilePath → Option Bytes
read_entire_file disk path = elim (open_read disk path) [
  | missing ↦ none
  | denied ↦ none
  | opened bytes ↦ some (c_string bytes)
]

-- skip_spaces of parser.c, skip_json_spaces of schema.c and the first loop of trim_in_place.
unfoldable pub skip_spaces : Bytes → Bytes
skip_spaces [] = []
skip_spaces (c ∷ rest) = let later = skip_spaces rest in if is_space c then later else c ∷ rest

-- The second loop of trim_in_place.
unfoldable pub trim_end : Bytes → Bytes
trim_end [] = []
trim_end (c ∷ rest) =
    let trimmed = trim_end rest in if is_empty trimmed && is_space c then [] else c ∷ trimmed

unfoldable pub trim_in_place : Bytes → Bytes
trim_in_place text = trim_end (skip_spaces text)

unfoldable pub is_identifier_char : ℕ → Bool
is_identifier_char c = is_alnum c || c == b'_'

-- The loop of match_keyword over the keyword: the rest of the source behind it.
unfoldable pub match_from : Bytes → Bytes → Option Bytes
match_from source [] = some source
match_from source (k ∷ keyword) =
    let rest = match_from (drop 1 source) keyword in
    if not (to_lower (char_at source) == to_lower k) then none else rest

unfoldable pub match_keyword : Bytes → Bytes → Option Bytes
match_keyword cursor keyword = elim (match_from (skip_spaces cursor) keyword) [
  | none ↦ none
  | some rest ↦ if is_identifier_char (char_at rest) then none else some rest
]

-- The characters of an identifier, and the rest.
unfoldable pub span_identifier : Bytes → Bytes × Bytes
span_identifier [] = ([], [])
span_identifier (c ∷ rest) =
    let (word, after) = span_identifier rest in
    if is_identifier_char c then (c ∷ word, after) else ([], c ∷ rest)

unfoldable pub parse_identifier_token : Bytes → Option (Bytes × Bytes)
parse_identifier_token cursor =
    let start = skip_spaces cursor in
    let (word, after) = span_identifier start in
    if not (is_identifier_char (char_at start)) then none else some (trim_in_place word, after)
