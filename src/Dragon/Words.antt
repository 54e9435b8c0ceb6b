-- ===== src/Dragon/Words.antt =====
-- parser.c: words, values and the clauses. A parser that moves `cursor` returns the rest of the
-- text.
use jungle_week6_coding_sess.Prelude.{
  ℕ, ◌-◌, Bool, true, false, not, ◌&&◌, ◌||◌, Option, none, some, Bytes, [], ◌∷◌, ◌==◌, leb,
  if◌then◌else◌, length, drop, codes,
}
use jungle_week6_coding_sess.Prelude.Chain.{◌>>=◌}
use jungle_week6_coding_sess.Libc.Text.{is_space, is_alnum, to_lower, char_at, starts_with}
use jungle_week6_coding_sess.Dragon.Values.{is_empty}
use jungle_week6_coding_sess.Dragon.Types.{
  CompareOp, op_eq, op_ne, op_gt, op_lt, op_ge, op_le, WhereCondition, OrderDirection, order_asc,
  order_desc, OrderByClause, max_value_len,
}

unfoldable pub skip_spaces : Bytes → Bytes
skip_spaces [] = []
skip_spaces (c ∷ rest) = let later = skip_spaces rest in if is_space c then later else c ∷ rest

-- The second loop of trim_in_place.
unfoldable pub trim_end : Bytes → Bytes
trim_end [] = []
trim_end (c ∷ rest) =
    let trimmed = trim_end rest in if is_empty trimmed && is_space c then [] else c ∷ trimmed

unfoldable pub trim_in_place : Bytes → Bytes
trim_in_place text = trim_end (skip_spaces text)

unfoldable pub is_identifier_char : ℕ → Bool
is_identifier_char c = is_alnum c || c == b'_'

-- `strncasecmp(text, prefix, strlen(prefix)) == 0`
unfoldable pub starts_with_case : Bytes → Bytes → Bool
starts_with_case text [] = true
starts_with_case text (k ∷ prefix) =
    let rest = starts_with_case (drop 1 text) prefix in
    if not (to_lower (char_at text) == to_lower k) then false else rest

unfoldable pub keyword_matches : Bytes → Bytes → Bool
keyword_matches text keyword =
    starts_with_case text keyword && not (is_identifier_char (char_at (drop (length keyword) text)))

unfoldable pub consume_keyword : Bytes → Bytes → Option Bytes
consume_keyword cursor keyword =
    let text = skip_spaces cursor in
    if not (keyword_matches text keyword) then none else some (drop (length keyword) text)

-- The characters of an identifier, and the rest.
unfoldable pub span_identifier : Bytes → Bytes × Bytes
span_identifier [] = ([], [])
span_identifier (c ∷ rest) =
    let (word, after) = span_identifier rest in
    if is_identifier_char c then (c ∷ word, after) else ([], c ∷ rest)

-- An identifier that fits in the buffer of 256 bytes that every caller gives.
unfoldable pub parse_identifier : Bytes → Option (Bytes × Bytes)
parse_identifier cursor =
    let text = skip_spaces cursor in
    let (word, after) = span_identifier text in
    if not (is_identifier_char (char_at text))
    then none
    else if leb 256 (length word)
    then none
    else some (word, after)

-- Behind the opening quote, with `room` bytes left: `''` is one quote.
unfoldable pub quoted_from : ℕ → Bytes → Option (Bytes × Bytes)
quoted_from room [] = none
quoted_from room (c ∷ []) = if c == b'\'' then some ([], []) else none
quoted_from room (c ∷ d ∷ rest) =
    let pair : Option (Bytes × Bytes) = (do
      (value, after) ← quoted_from (room - 1) rest
      some (b'\'' ∷ value, after)) in
    let plain : Option (Bytes × Bytes) = (do
      (value, after) ← quoted_from (room - 1) (d ∷ rest)
      some (c ∷ value, after)) in
    if c == b'\'' && d == b'\''
    then (if leb room 1 then none else pair)
    else if c == b'\''
    then some ([], d ∷ rest)
    else if leb room 1
    then none
    else plain

unfoldable pub parse_quoted_value : Bytes → Option (Bytes × Bytes)
parse_quoted_value cursor =
    if not (char_at cursor == b'\'') then none else quoted_from max_value_len (drop 1 cursor)

-- A value without quotes: up to white space, a comma, a closing parenthesis or a semicolon.
unfoldable pub span_token : Bytes → Bytes × Bytes
span_token [] = ([], [])
span_token (c ∷ rest) =
    let (token, after) = span_token rest in
    if is_space c || c == b',' || c == b')' || c == b';' then ([], c ∷ rest) else (c ∷ token, after)

unfoldable pub parse_value_token : Bytes → Option (Bytes × Bytes)
parse_value_token cursor =
    let text = skip_spaces cursor in
    let (raw, after) = span_token text in
    let token = trim_in_place raw in
    let bare =
      if leb max_value_len (length raw)
      then none
      else if is_empty token || leb max_value_len (length token)
      then none
      else some (token, after) in
    if char_at text == b'\'' then parse_quoted_value text else bare

unfoldable pub parse_compare_op : Bytes → Option (CompareOp × Bytes)
parse_compare_op cursor =
    let text = skip_spaces cursor in
    if starts_with text (codes "!=")
    then some (op_ne, drop 2 text)
    else if starts_with text (codes ">=")
    then some (op_ge, drop 2 text)
    else if starts_with text (codes "<=")
    then some (op_le, drop 2 text)
    else if char_at text == b'='
    then some (op_eq, drop 1 text)
    else if char_at text == b'>'
    then some (op_gt, drop 1 text)
    else if char_at text == b'<'
    then some (op_lt, drop 1 text)
    else none

-- `none` is a syntax error (-1), and the clause is `none` where the text has none (0).
unfoldable pub parse_where_clause : Bytes → Option (Option WhereCondition × Bytes)
parse_where_clause cursor = elim (consume_keyword cursor (codes "WHERE")) [
  | none ↦ some (none, cursor)
  | some text ↦ do
    (column, text) ← parse_identifier text
    (op, text) ← parse_compare_op text
    (value, text) ← parse_value_token text
    some (some (record { column = column; op = op; value = value }), text)
]

-- The direction, and the rest.
unfoldable pub parse_direction : Bytes → OrderDirection × Bytes
parse_direction text =
    if keyword_matches text (codes "DESC")
    then (order_desc, drop 4 text)
    else if keyword_matches text (codes "ASC")
    then (order_asc, drop 3 text)
    else (order_asc, text)

unfoldable pub parse_order_by_clause : Bytes → Option (Option OrderByClause × Bytes)
parse_order_by_clause cursor = elim (consume_keyword cursor (codes "ORDER")) [
  | none ↦ some (none, cursor)
  | some text ↦ do
    text ← consume_keyword text (codes "BY")
    (column, text) ← parse_identifier text
    let (direction, text) = parse_direction (skip_spaces text)
    some (some (record { column = column; direction = direction }), text)
]
