-- ===== src/Jiun/Parser/Indexes.antt =====
-- The columns that a SELECT selects.
use jungle_week6_coding_sess.Prelude.{
  ℕ, zero, suc, ◌+◌, ◌<◌, ◌≤◌, ◌≡◌, subst, Bytes, List, [], ◌∷◌, length, codes, arith, All, Option,
  none, some, inl, inr, Bool-cases, eq_of_some,
}
use jungle_week6_coding_sess.Jiun.Types.{
  Column, TableSchema, SchemaRegistry, SelectPlan, ok, invalid_query, table_not_found,
}
use jungle_week6_coding_sess.Jiun.Results.{ok-bind, ok-want, ok-guard, eq_of_ok}
use jungle_week6_coding_sess.Jiun.Text.{
  ci_equal, skip_ws, parse_identifier, consume_keyword, is_empty,
}
use jungle_week6_coding_sess.Jiun.Parser.{
  find_col_from, find_col_index, find_table, selected_list, indexes, column_indexes, select_indexes,
  parse_select,
}

find_col_from-lt :
    (i : ℕ) (columns : List Column) (col_name : Bytes) (idx : ℕ)
    → find_col_from i columns col_name ≡ some idx
    → idx < i + length columns
unfolding find_col_from
find_col_from-lt i [] col_name idx h = absurd cc
find_col_from-lt i (column ∷ columns) col_name idx h =
    elim (Bool-cases (ci_equal column.name col_name)) [
      | inl e ↦ omega (arith, eq_of_some (rw e at h))
      | inr e ↦ omega (arith, find_col_from-lt (suc i) columns col_name idx (rw e at h))
    ]

-- The index is one of a column.
pub find_col_index-lt :
    (schema : TableSchema) (col_name : Bytes) (idx : ℕ)
    → find_col_index schema col_name ≡ some idx
    → idx < length schema.columns
unfolding find_col_index
find_col_index-lt schema col_name idx h =
    omega (arith, find_col_from-lt 0 schema.columns col_name idx h)

module _ (columns : ℕ) where
  abbrev IsBelow : ℕ → Type 0
  IsBelow idx = idx < columns

  indexes-IsBelow : (i n : ℕ) → i + n ≤ columns → All IsBelow (indexes i n)
  unfolding indexes
  indexes-IsBelow i zero h = tt
  indexes-IsBelow i (suc n) h = (omega arith, indexes-IsBelow (suc i) n (omega arith))

column_indexes-IsBelow :
    (schema : TableSchema) (cols : List Bytes) (selected : List ℕ)
    → column_indexes schema cols ≡ ok selected
    → All (λ idx. idx < length schema.columns) selected
unfolding column_indexes
column_indexes-IsBelow schema [] selected h =
    subst (All (λ idx. idx < length schema.columns)) (eq_of_ok h) tt
column_indexes-IsBelow schema (col ∷ cols) selected h =
    let (idx, found, h) = ok-want (find_col_index schema col) invalid_query _ selected h in
    let (rest, others, h) = ok-bind (column_indexes schema cols) _ selected h in
    subst (All (λ idx. idx < length schema.columns)) (eq_of_ok h)
      (find_col_index-lt schema col idx found, column_indexes-IsBelow schema cols rest others)

select_indexes-IsBelow :
    (schema : TableSchema) (cols : Option (List Bytes)) (selected : List ℕ)
    → select_indexes schema cols ≡ ok selected
    → All (λ idx. idx < length schema.columns) selected
unfolding select_indexes
select_indexes-IsBelow schema none selected h =
    subst (All (λ idx. idx < length schema.columns)) (eq_of_ok h)
      (indexes-IsBelow (length schema.columns) 0 (length schema.columns) (omega arith))
select_indexes-IsBelow schema (some cols) selected h = column_indexes-IsBelow schema cols selected h

-- Every index of a plan that parse_select makes is the index of a column of its table, so that
-- the execution of the plan reads no field out of bounds.
pub parse_select-bounds :
    (stmt : Bytes) (reg : SchemaRegistry) (plan : SelectPlan)
    → parse_select stmt reg ≡ ok plan
    → All (λ idx. idx < length plan.schema.columns) plan.selected_idx
unfolding parse_select
parse_select-bounds stmt reg plan h =
    let (p, _, h) = ok-want (consume_keyword stmt (codes "SELECT")) invalid_query _ plan h in
    let ((cols, p), _, h) = ok-bind (selected_list (skip_ws p)) _ plan h in
    let (p, _, h) = ok-want (consume_keyword p (codes "FROM")) invalid_query _ plan h in
    let ((table, p), _, h) = ok-want (parse_identifier p 256) invalid_query _ plan h in
    let (_, h) = ok-guard (is_empty (skip_ws p)) invalid_query _ plan h in
    let (schema, _, h) = ok-want (find_table reg table) table_not_found _ plan h in
    let (selected, from, h) = ok-bind (select_indexes schema cols) _ plan h in
    subst (λ (plan : SelectPlan). All (λ idx. idx < length plan.schema.columns) plan.selected_idx)
      (eq_of_ok h) (select_indexes-IsBelow schema cols selected from)
