-- ===== src/Dragon/Values.antt =====
-- executor.c: the comparison of values.
use jungle_week6_coding_sess.Prelude.{
  ℕ, Bool, true, false, ◌&&◌, Bytes, List, [], ◌∷◌, ◌==◌, ltb, if◌then◌else◌, get_or,
}
use jungle_week6_coding_sess.Libc.Text.Numbers.{strtol}
use jungle_week6_coding_sess.Dragon.Types.{
  CompareOp, op_eq, op_ne, op_gt, op_lt, op_ge, op_le, WhereCondition,
}

abbrev pub is_empty : Bytes → Bool
is_empty [] = true
is_empty (_ ∷ _) = false

-- A negative result, 0, or a positive one.
pub data Sign : Type 0 where
  negative zero_sign positive : Sign

unfoldable pub compare_numbers : ℕ → ℕ → Sign
compare_numbers left right =
    if ltb left right then negative else if ltb right left then positive else zero_sign

unfoldable pub strcmp : Bytes → Bytes → Sign
strcmp [] [] = zero_sign
strcmp [] (r ∷ right) = negative
strcmp (l ∷ left) [] = positive
strcmp (l ∷ left) (r ∷ right) =
    let rest = strcmp left right in if l == r then rest else compare_numbers l r

unfoldable pub compare_values : Bytes → Bytes → Sign
compare_values left right =
    let (left_number, left_end) = strtol left in
    let (right_number, right_end) = strtol right in
    if is_empty left_end && is_empty right_end
    then compare_numbers left_number right_number
    else strcmp left right

unfoldable pub compare_with_operator : Sign → CompareOp → Bool
compare_with_operator zero_sign op_eq = true
compare_with_operator _ op_eq = false
compare_with_operator zero_sign op_ne = false
compare_with_operator _ op_ne = true
compare_with_operator positive op_gt = true
compare_with_operator _ op_gt = false
compare_with_operator negative op_lt = true
compare_with_operator _ op_lt = false
compare_with_operator negative op_ge = false
compare_with_operator _ op_ge = true
compare_with_operator positive op_le = false
compare_with_operator _ op_le = true

unfoldable pub row_matches_where : ℕ → WhereCondition → List Bytes → Bool
row_matches_where column_index condition row =
    compare_with_operator (compare_values (get_or row column_index []) condition.value) condition.op
