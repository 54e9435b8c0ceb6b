-- ===== src/Hyeonok/Parser.antt =====
-- parser.c. A loop over a list runs on fuel: each round shortens the text, so its length and one
-- are fuel enough.
use jungle_week6_coding_sess.Prelude.{
  ℕ, zero, suc, ◌+◌, ◌-◌, ◌*◌, ◌%◌, ◌^◌, Bool, true, false, not, ◌||◌, Option, none, some, Bytes,
  List, [], ◌∷◌, ◌++◌, ◌==◌, ltb, if◌then◌else◌, length, drop, codes,
}
use jungle_week6_coding_sess.Prelude.Chain.{◌>>=◌, ◌>>◌, guard}
use jungle_week6_coding_sess.Libc.Text.{is_digit, char_at}
use jungle_week6_coding_sess.Hyeonok.Text.{
  is_empty, skip_spaces, trim_in_place, match_keyword, parse_identifier_token,
}
use jungle_week6_coding_sess.Hyeonok.Ast.{
  SqlValue, string_value, int_value, SqlStatement, insert_type, select_type, initialize_statement,
}

-- The end of a round of a list in parentheses: go on behind the comma, or stop behind the closing
-- parenthesis.
unfoldable pub after_item {ℓ} :
    {A : Type ℓ} → A → Bytes → Option (List A × Bytes) → Option (List A × Bytes)
after_item item p more =
    let c = char_at (skip_spaces p) in
    if c == b','
    then (do (items, after) ← more; some (item ∷ items, after))
    else if c == b')'
    then some (item ∷ [], drop 1 (skip_spaces p))
    else none

unfoldable pub column_items : ℕ → Bytes → Option (List Bytes × Bytes)
column_items zero cursor = none
column_items (suc fuel) cursor = do
  (column_name, p) ← parse_identifier_token cursor
  after_item column_name p (column_items fuel (drop 1 (skip_spaces p)))

-- `if (**cursor != '(') return 0; (*cursor)++;` after white space.
unfoldable pub open_parenthesis : Bytes → Option Bytes
open_parenthesis cursor =
    let p = skip_spaces cursor in if not (char_at p == b'(') then none else some (drop 1 p)

unfoldable pub parse_column_list : Bytes → Option (List Bytes × Bytes)
parse_column_list cursor = do p ← open_parenthesis cursor; column_items (suc (length p)) p

-- The text up to the next quote, and what stands behind it.
unfoldable pub until_quote : Bytes → Option (Bytes × Bytes)
until_quote [] = none
until_quote (c ∷ rest) =
    let later : Option (Bytes × Bytes) = elim (until_quote rest) [
      | none ↦ none
      | some (text, after) ↦ some (c ∷ text, after)
    ] in
    if c == b'\'' then some ([], rest) else later

unfoldable pub parse_string_value : Bytes → Option (SqlValue × Bytes)
parse_string_value cursor = do
  guard (char_at cursor == b'\'')
  (text, after) ← until_quote (drop 1 cursor)
  some (record { type = string_value; text = text; word = 0 }, after)

-- The digits at the front, and the rest.
unfoldable pub span_digits : Bytes → Bytes × Bytes
span_digits [] = ([], [])
span_digits (c ∷ rest) =
    let (number, after) = span_digits rest in
    if is_digit c then (c ∷ number, after) else ([], c ∷ rest)

-- The value of decimal digits behind those that gave `n`.
unfoldable pub digits_value : ℕ → Bytes → ℕ
digits_value n [] = n
digits_value n (c ∷ rest) = digits_value (n * 10 + (c - b'0')) rest

abbrev at_most : ℕ → ℕ → ℕ
at_most limit n = if ltb limit n then limit else n

-- `(int)strtol(text, &end_ptr, 10)`: strtol stops at the limits of long, and int is its low word.
unfoldable pub int_word : Bool → ℕ → ℕ
int_word negative magnitude =
    if negative
    then (2 ^ 32 - at_most (2 ^ 63) magnitude % 2 ^ 32) % 2 ^ 32
    else at_most (2 ^ 63 - 1) magnitude % 2 ^ 32

unfoldable pub parse_int_value : Bytes → Option (SqlValue × Bytes)
parse_int_value cursor =
    let signed = char_at cursor == b'-' || char_at cursor == b'+' in
    let p = if signed then drop 1 cursor else cursor in
    let (number, after) = span_digits p in
    let sign = if signed then char_at cursor ∷ [] else [] in
    if not (is_digit (char_at p))
    then none
    else some (
      record {
        type = int_value;
        text = trim_in_place (sign ++ number);
        word = int_word (char_at cursor == b'-') (digits_value 0 number);
      },
      after,
    )

unfoldable pub parse_value_item : Bytes → Option (SqlValue × Bytes)
parse_value_item cursor =
    let p = skip_spaces cursor in
    if char_at p == b'\'' then parse_string_value p else parse_int_value p

unfoldable pub value_items : ℕ → Bytes → Option (List SqlValue × Bytes)
value_items zero cursor = none
value_items (suc fuel) cursor = do
  (value, p) ← parse_value_item cursor
  after_item value p (value_items fuel (drop 1 (skip_spaces p)))

unfoldable pub parse_value_list : Bytes → Option (List SqlValue × Bytes)
parse_value_list cursor = do p ← open_parenthesis cursor; value_items (suc (length p)) p

unfoldable pub parse_insert_statement : Bytes → SqlStatement → Option SqlStatement
parse_insert_statement sql_text statement = do
  p ← match_keyword sql_text (codes "INSERT")
  p ← match_keyword p (codes "INTO")
  (table_name, p) ← parse_identifier_token p
  (columns, p) ← parse_column_list p
  p ← match_keyword p (codes "VALUES")
  (values, p) ← parse_value_list p
  guard (is_empty (skip_spaces p))
  some (record statement {
    type = insert_type;
    insert = record { table_name = table_name; columns = columns; values = values };
  })

-- The end of a round of parse_select_list: without a comma the list ends.
unfoldable pub after_column :
    Bytes → Bytes → Option (List Bytes × Bytes) → Option (List Bytes × Bytes)
after_column column_name p more =
    if char_at p == b','
    then (do (columns, after) ← more; some (column_name ∷ columns, after))
    else some (column_name ∷ [], p)

unfoldable pub select_items : ℕ → Bytes → Option (List Bytes × Bytes)
select_items zero cursor = none
select_items (suc fuel) cursor = do
  (column_name, p) ← parse_identifier_token cursor
  after_column column_name (skip_spaces p) (select_items fuel (drop 1 (skip_spaces p)))

-- The flag, the columns, and the rest.
unfoldable pub parse_select_list : Bytes → Option ((Bool × List Bytes) × Bytes)
parse_select_list cursor =
    let p = skip_spaces cursor in
    if char_at p == b'*'
    then some ((true, []), drop 1 p)
    else (do (columns, after) ← select_items (suc (length p)) p; some ((false, columns), after))

unfoldable pub parse_select_statement : Bytes → SqlStatement → Option SqlStatement
parse_select_statement sql_text statement = do
  p ← match_keyword sql_text (codes "SELECT")
  ((select_all, columns), p) ← parse_select_list p
  p ← match_keyword p (codes "FROM")
  (table_name, p) ← parse_identifier_token p
  guard (is_empty (skip_spaces p))
  some (record statement {
    type = select_type;
    select = record { select_all = select_all; table_name = table_name; columns = columns };
  })

abbrev pub is_some {ℓ} : {A : Type ℓ} → Option A → Bool
is_some none = false
is_some (some _) = true

-- `none` is PARSE_INVALID_QUERY; PARSE_INTERNAL_ERROR needs a NULL or a failing malloc.
unfoldable pub parse_query : Bytes → Option SqlStatement
parse_query sql_text =
    let statement = initialize_statement sql_text in
    if is_some (match_keyword sql_text (codes "INSERT"))
    then parse_insert_statement sql_text statement
    else if is_some (match_keyword sql_text (codes "SELECT"))
    then parse_select_statement sql_text statement
    else none
