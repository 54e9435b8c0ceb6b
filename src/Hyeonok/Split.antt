-- ===== src/Hyeonok/Split.antt =====
-- sql_splitter.c.
use jungle_week6_coding_sess.Prelude.{
  Bool, false, not, ◌&&◌, Bytes, List, [], ◌∷◌, ◌++◌, ◌==◌, if◌then◌else◌,
}
use jungle_week6_coding_sess.Hyeonok.Text.{is_empty, trim_in_place}

-- A statement of the list: a blank one is dropped.
unfoldable pub append_statement : List Bytes → Bytes → List Bytes
append_statement items segment =
    let trimmed = trim_in_place segment in if is_empty trimmed then items else items ++ trimmed ∷ []

-- The loop: the quoting, the statements so far, the bytes since `segment_start`, and the rest.
unfoldable pub split_from : Bool → List Bytes → Bytes → Bytes → List Bytes
split_from in_single_quote items segment [] = append_statement items segment
split_from in_single_quote items segment (c ∷ rest) =
    let toggled = split_from (not in_single_quote) items (segment ++ c ∷ []) rest in
    let next = split_from in_single_quote (append_statement items segment) [] rest in
    let same = split_from in_single_quote items (segment ++ c ∷ []) rest in
    if c == b'\'' then toggled else if c == b';' && not in_single_quote then next else same

unfoldable pub split_sql_statements : Bytes → List Bytes
split_sql_statements sql_text = split_from false [] [] sql_text
