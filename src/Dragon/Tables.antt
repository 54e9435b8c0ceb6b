-- ===== src/Dragon/Tables.antt =====
-- executor.c: what a statement does to the rows of a result.
pub mod Sort
pub mod Update
pub mod Resolve
pub mod Where
use jungle_week6_coding_sess.Prelude.{
  ℕ, zero, suc, ◌-◌, Bool, true, false, not, ◌&&◌, Option, none, some, Bytes, List, [], ◌∷◌, ◌++◌,
  ltb, if◌then◌else◌, length, take, set, get_or, map, maybe,
}
use jungle_week6_coding_sess.Dragon.Types.{
  WhereCondition, OrderDirection, order_asc, order_desc, OrderByClause, SetClause, TableDef,
  Command, ResultSet, ErrorCode, err_invalid_query, Outcome, stopped, filled,
}
use jungle_week6_coding_sess.Dragon.Values.{
  Sign, negative, zero_sign, positive, compare_values, row_matches_where,
}
use jungle_week6_coding_sess.Dragon.Storage.{
  find_column_index, column_names, column_indices, values_at,
}

unfoldable pub filter_rows_in_place : ℕ → WhereCondition → List (List Bytes) → List (List Bytes)
filter_rows_in_place column_index condition [] = []
filter_rows_in_place column_index condition (row ∷ rows) =
    let kept = filter_rows_in_place column_index condition rows in
    if row_matches_where column_index condition row then row ∷ kept else kept

unfoldable pub delete_rows_in_place : ℕ → WhereCondition → List (List Bytes) → List (List Bytes)
delete_rows_in_place column_index condition [] = []
delete_rows_in_place column_index condition (row ∷ rows) =
    let kept = delete_rows_in_place column_index condition rows in
    if not (row_matches_where column_index condition row) then row ∷ kept else kept

-- `should_swap` of the sort.
unfoldable pub should_swap : ℕ → OrderDirection → List Bytes → List Bytes → Bool
should_swap column_index direction row next =
    elim (compare_values (get_or row column_index []) (get_or next column_index [])) [
      | positive ↦ elim direction [ order_asc ↦ true | order_desc ↦ false ]
      | negative ↦ elim direction [ order_asc ↦ false | order_desc ↦ true ]
      | zero_sign ↦ false
    ]

-- One pass of the sort: so many pairs of neighbours, from the front.
unfoldable pub sort_pass : ℕ → OrderDirection → ℕ → List (List Bytes) → List (List Bytes)
sort_pass column_index direction (suc pairs) (row ∷ next ∷ rows) =
    let swapped = next ∷ sort_pass column_index direction pairs (row ∷ rows) in
    let same = row ∷ sort_pass column_index direction pairs (next ∷ rows) in
    if should_swap column_index direction row next then swapped else same
sort_pass column_index direction _ rows = rows

-- The passes, each over one pair less than the one before.
unfoldable pub sort_passes : ℕ → OrderDirection → ℕ → List (List Bytes) → List (List Bytes)
sort_passes column_index direction zero rows = rows
sort_passes column_index direction (suc pairs) rows =
    sort_passes column_index direction pairs (sort_pass column_index direction (suc pairs) rows)

unfoldable pub sort_rows_in_place : ℕ → OrderDirection → List (List Bytes) → List (List Bytes)
sort_rows_in_place column_index direction rows =
    sort_passes column_index direction (length rows - 1) rows

unfoldable pub apply_limit_in_place : ℕ → List (List Bytes) → List (List Bytes)
apply_limit_in_place limit_count rows =
    if ltb limit_count (length rows) then take limit_count rows else rows

unfoldable pub project_result_set : ResultSet → TableDef → Command → Outcome ResultSet
project_result_set result table cmd =
    if cmd.is_select_all
    then filled (record result { headers = column_names table.columns })
    else maybe (column_indices table cmd.columns) (stopped err_invalid_query) (λ indices.
      filled (record { headers = cmd.columns; rows = map (values_at indices) result.rows }))

-- The indices of the SET clauses, with the marks of those seen.
unfoldable pub resolve_set_columns : TableDef → List Bool → List SetClause → Option (List ℕ)
resolve_set_columns table seen [] = some []
resolve_set_columns table seen (clause ∷ clauses) = elim (find_column_index table clause.column) [
  | none ↦ none
  | some i ↦
      let rest = resolve_set_columns table (set seen i true) clauses in
      if get_or seen i false then none else maybe rest none (λ indices. some (i ∷ indices))
]

-- The inner loop of an UPDATE.
unfoldable pub set_values : List ℕ → List SetClause → List Bytes → List Bytes
set_values (i ∷ indices) (clause ∷ clauses) row =
    set_values indices clauses (set row i clause.value)
set_values _ _ row = row
