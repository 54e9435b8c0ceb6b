-- ===== src/Jiun/Split.antt =====
-- The rest of domain/parser.c: the split into statements, and their kinds.
use jungle_week6_coding_sess.Prelude.{
  Bool, false, not, ◌&&◌, Bytes, List, [], ◌∷◌, ◌++◌, ◌==◌, if◌then◌else◌, codes,
}
use jungle_week6_coding_sess.Jiun.Text.{ci_n_equal, is_empty, skip_ws, rtrim_inplace}

-- A statement of the list, from the bytes before the semicolon: a blank one is dropped.
unfoldable pub push_statement : List Bytes → Bytes → List Bytes
push_statement statements stmt =
    let trimmed = rtrim_inplace (skip_ws stmt) in
    if is_empty trimmed then statements else statements ++ trimmed ∷ []

-- The loop: the quoting, the statements so far, the bytes since `start`, and the rest.
unfoldable pub split_from : Bool → List Bytes → Bytes → Bytes → List Bytes
split_from in_quote statements stmt [] = push_statement statements stmt
split_from in_quote statements stmt (c ∷ []) =
    if c == b';' && not in_quote
    then push_statement statements stmt
    else push_statement statements (stmt ++ c ∷ [])
split_from in_quote statements stmt (c ∷ d ∷ rest) =
    let pair = split_from in_quote statements (stmt ++ c ∷ d ∷ []) rest in
    let toggled = split_from (not in_quote) statements (stmt ++ c ∷ []) (d ∷ rest) in
    let next = split_from in_quote (push_statement statements stmt) [] (d ∷ rest) in
    let same = split_from in_quote statements (stmt ++ c ∷ []) (d ∷ rest) in
    if c == b'\'' && in_quote && d == b'\''
    then pair
    else if c == b'\''
    then toggled
    else if c == b';' && not in_quote
    then next
    else same

unfoldable pub split_statements : Bytes → List Bytes
split_statements sql = split_from false [] [] sql

unfoldable pub is_insert_stmt : Bytes → Bool
is_insert_stmt stmt = ci_n_equal (skip_ws stmt) (codes "INSERT") 6

unfoldable pub is_select_stmt : Bytes → Bool
is_select_stmt stmt = ci_n_equal (skip_ws stmt) (codes "SELECT") 6
