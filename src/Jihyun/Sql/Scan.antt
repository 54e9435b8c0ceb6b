-- ===== src/Jihyun/Sql/Scan.antt =====
-- The scanners of parser.c: value decoding, comma lists, identifiers, parentheses, statements.
use jungle_week6_coding_sess.Prelude.{
  ℕ, ◌+◌, ◌-◌, Bool, true, false, not, ◌&&◌, ◌||◌, Bytes, List, [], ◌∷◌, ◌++◌, ltb, ◌==◌,
  if◌then◌else◌, length, take, drop,
}
use jungle_week6_coding_sess.Jihyun.Status.{SqlStatus, ok, invalid_query}
use jungle_week6_coding_sess.Jihyun.Text.{
  Quoting, outside, in_quotes, next_quoting, is_alnum, char_at, skip_spaces, trim_inplace,
  trim_copy_range, lowercase_inplace, is_blank_string,
}
use jungle_week6_coding_sess.Jihyun.Sql.Ast.{Parsed, done, fail, double_free}

unfoldable pub is_identifier_char : ℕ → Bool
is_identifier_char c = is_alnum c || c == b'_'

unfoldable pub normalize_identifier : Bytes → Bytes
normalize_identifier token = lowercase_inplace (trim_inplace token)

-- The loop of decode_value_token over what stands between the two outer quotes: a pair of
-- quotes is one quote, if the second is not the closing one.
unfoldable pub unescape : Bytes → Bytes
unescape [] = []
unescape (c ∷ []) = c ∷ []
unescape (c ∷ d ∷ rest) = elim (c == b'\'' && d == b'\'') [
  | true ↦ b'\'' ∷ unescape rest
  | false ↦ c ∷ unescape (d ∷ rest)
]

-- token[0] == '\'' && token[length - 1] == '\''
unfoldable pub is_quoted : Bytes → Bool
is_quoted token =
    not (ltb (length token) 2)
    && char_at token == b'\''
    && char_at (drop (length token - 1) token) == b'\''

unfoldable pub decode_value_token : Bytes → Bytes
decode_value_token text =
    let token = trim_inplace text in
    if is_quoted token then unescape (take (length token - 2) (drop 1 token)) else token

-- The out-parameters of split_comma_list. `refused true`: the array is freed, and the caller's
-- pointer and count still speak of it; `refused false`: they are NULL and 0.
pub data Items : Type 0 where
  listed : List Bytes → Items
  refused : Bool → Items

unfoldable pub is_nil : List Bytes → Bool
is_nil [] = true
is_nil (_ ∷ _) = false

unfoldable pub finish_token : Bool → Bytes → Bytes
finish_token decode_values token =
    if decode_values then decode_value_token token else normalize_identifier token

-- The loop of split_comma_list: the quoting mode, the items pushed, the bytes since `token_start`
-- and the rest of the text.
unfoldable pub split_comma_from : Bool → Quoting → List Bytes → Bytes → Bytes → Items
split_comma_from decode_values mode items range [] =
    let token = trim_copy_range range in
    if length token == 0
    then refused (not (is_nil items))
    else if in_quotes mode
    then refused false
    else listed (items ++ finish_token decode_values token ∷ [])
split_comma_from decode_values mode items range (c ∷ rest) =
    let token = trim_copy_range range in
    let next_token =
      split_comma_from decode_values outside (items ++ finish_token decode_values token ∷ []) []
        rest in
    let same_token =
      split_comma_from decode_values (next_quoting mode c rest) items (range ++ c ∷ []) rest in
    if c == b',' && not (in_quotes mode)
    then (if length token == 0 then refused (not (is_nil items)) else next_token)
    else same_token

unfoldable pub split_comma_list : Bytes → Bool → Items
split_comma_list text decode_values = split_comma_from decode_values outside [] [] text

-- What a caller does with a refused list: `statement_destroy` frees the array, then the status
-- is returned.
unfoldable pub take_items : Items → Parsed (List Bytes)
take_items (listed items) = done items
take_items (refused true) = double_free
take_items (refused false) = fail invalid_query

-- The identifier bytes in front, and the position behind them.
unfoldable pub span_identifier : Bytes → Bytes × Bytes
span_identifier [] = ([], [])
span_identifier (c ∷ rest) =
    let (word, after) = span_identifier rest in
    if is_identifier_char c then (c ∷ word, after) else ([], c ∷ rest)

-- The identifier in lower case, and the cursor behind it.
unfoldable pub extract_identifier : Bytes → Parsed (Bytes × Bytes)
extract_identifier cursor =
    let (word, after) = span_identifier (skip_spaces cursor) in
    if length word == 0
    then fail invalid_query
    else done (lowercase_inplace (trim_copy_range word), after)

-- The loop of extract_parenthesized_segment: the depth, the quoting mode, the bytes since
-- `start` and the rest of the text. The `int` depth does not overflow below 2^31 parentheses.
unfoldable pub scan_segment : ℕ → Quoting → Bytes → Bytes → Parsed (Bytes × Bytes)
scan_segment depth mode range [] = fail invalid_query
scan_segment depth mode range (c ∷ rest) =
    let deeper =
      if not (in_quotes mode) && c == b'('
      then depth + 1
      else if not (in_quotes mode) && c == b')'
      then depth - 1
      else depth in
    let later = scan_segment deeper (next_quoting mode c rest) (range ++ c ∷ []) rest in
    if not (in_quotes mode) && c == b')' && deeper == 0
    then done (trim_copy_range range, rest)
    else later

-- The test `**cursor != '('`.
unfoldable pub open_segment : Bytes → Parsed (Bytes × Bytes)
open_segment [] = fail invalid_query
open_segment (c ∷ rest) =
    if not (c == b'(') then fail invalid_query else scan_segment 1 outside [] rest

unfoldable pub extract_parenthesized_segment : Bytes → Parsed (Bytes × Bytes)
extract_parenthesized_segment cursor = open_segment (skip_spaces cursor)

-- The statements pushed, after the range of one more: a blank one is dropped.
unfoldable pub push_statement : List Bytes → Bytes → List Bytes
push_statement statements range =
    let statement = trim_copy_range range in
    if not (is_blank_string statement) then statements ++ statement ∷ [] else statements

-- The loop of split_sql_statements, with the status that it returns.
unfoldable pub split_sql_from : Quoting → List Bytes → Bytes → Bytes → SqlStatus × List Bytes
split_sql_from mode statements range [] =
    (if in_quotes mode then invalid_query else ok, push_statement statements range)
split_sql_from mode statements range (c ∷ rest) =
    let next_statement = split_sql_from outside (push_statement statements range) [] rest in
    let same_statement =
      split_sql_from (next_quoting mode c rest) statements (range ++ c ∷ []) rest in
    if c == b';' && not (in_quotes mode) then next_statement else same_statement

unfoldable pub split_sql_statements : Bytes → SqlStatus × List Bytes
split_sql_statements sql_text = split_sql_from outside [] [] sql_text
