-- ===== src/Dragon/Executor/Shown.antt =====
-- What a SELECT shows of the rows: the values for the names, in lines.
use jungle_week6_coding_sess.Prelude.{
  ℕ, suc, ◌+◌, arith, ◌≡◌, ◌⊎◌, refl, sym, ap, ◌∙◌, true, false, Bytes, List, [], ◌∷◌, ◌++◌, map,
  some, All, Bool-cases, inl, inr, if◌then◌else◌, get_or, bytes_eq, append_assoc,
}
use jungle_week6_coding_sess.Prelude.Spec.{concat, comma_line}
use jungle_week6_coding_sess.Dragon.Types.{ColumnDef, TableDef, Command, ResultSet, filled}
use jungle_week6_coding_sess.Dragon.Rows.{line_feed}
use jungle_week6_coding_sess.Dragon.Storage.{
  find_column_from, find_column_index, column_names, column_indices, values_at,
}
use jungle_week6_coding_sess.Dragon.Tables.{project_result_set}
use jungle_week6_coding_sess.Dragon.Tables.Update.{HasColumn, names}
use jungle_week6_coding_sess.Dragon.Executor.{print_line, print_lines, print_result_set}

-- The value of the row at the column with the name.
unfoldable pub value_of : List ColumnDef → List Bytes → Bytes → Bytes
value_of (column ∷ columns) (value ∷ row) name =
    let later = value_of columns row name in if bytes_eq column.name name then value else later
value_of _ _ name = []

-- All columns that a SELECT names are columns of the table.
abbrev pub SelectsColumns : Command → TableDef → Type 0
SelectsColumns cmd table = (cmd.is_select_all ≡ true) ⊎ All (HasColumn table.columns) cmd.columns

-- The names that a SELECT is to show, and the values of a row.
unfoldable pub shown_names : Command → TableDef → List Bytes
shown_names cmd table = if cmd.is_select_all then names table.columns else cmd.columns

unfoldable pub shown_values : Command → TableDef → List Bytes → List Bytes
shown_values cmd table row =
    if cmd.is_select_all then row else map (value_of table.columns row) cmd.columns

-- The text that is meant: nothing for no rows, and else the names and the rows.
unfoldable pub table_text : Command → TableDef → List (List Bytes) → Bytes
table_text cmd table [] = []
table_text cmd table (row ∷ rows) =
    comma_line (shown_names cmd table)
    ++ concat (map (λ r. comma_line (shown_values cmd table r)) (row ∷ rows))

print_line-comma_line : (texts : List Bytes) → print_line texts ≡ comma_line texts
unfolding print_line comma_line concat
print_line-comma_line [] = refl
print_line-comma_line (text ∷ []) = refl
print_line-comma_line (text ∷ next ∷ texts) =
    ap (λ rest. text ++ (b',' ∷ rest))
      (print_line-comma_line (next ∷ texts)
        ∙ sym (append_assoc next (concat (map (◌∷◌ b',') texts)) (line_feed ∷ [])))

print_lines-concat :
    (show : List Bytes → List Bytes) (rows : List (List Bytes))
    → print_lines (map show rows) ≡ concat (map (λ r. comma_line (show r)) rows)
unfolding print_lines concat
print_lines-concat show [] = refl
print_lines-concat show (row ∷ rows) =
    λ i. print_line-comma_line (show row) i ++ print_lines-concat show rows i

-- A result with the names and the values that are to be shown prints the text that is meant.
print_result_set-table_text :
    (cmd : Command) (table : TableDef) (rows : List (List Bytes))
    → print_result_set
        (record { headers = shown_names cmd table; rows = map (shown_values cmd table) rows })
      ≡ table_text cmd table rows
unfolding print_result_set table_text
print_result_set-table_text cmd table [] = refl
print_result_set-table_text cmd table (row ∷ rows) = λ i.
    print_line-comma_line (shown_names cmd table) i
    ++ print_lines-concat (shown_values cmd table) (row ∷ rows) i

get_or-value_of_here :
    (column : ColumnDef) (columns : List ColumnDef) (name : Bytes) (row : List Bytes)
    → bytes_eq column.name name ≡ true
    → get_or row 0 [] ≡ value_of (column ∷ columns) row name
unfolding value_of
get_or-value_of_here column columns name [] e = refl
get_or-value_of_here column columns name (value ∷ row) e = rw e refl

get_or-value_of_later :
    (column : ColumnDef) (columns : List ColumnDef) (name : Bytes) (j : ℕ)
    → bytes_eq column.name name ≡ false
    → ((row : List Bytes) → get_or row j [] ≡ value_of columns row name)
    → (row : List Bytes) → get_or row (suc j) [] ≡ value_of (column ∷ columns) row name
unfolding value_of
get_or-value_of_later column columns name j e h [] = refl
get_or-value_of_later column columns name j e h (value ∷ row) = rw e (h row)

find_column_from-value_of :
    (k : ℕ) (columns : List ColumnDef) (name : Bytes)
    → HasColumn columns name
    → (j : ℕ) × (find_column_from k columns name ≡ some (k + j))
      × ((row : List Bytes) → get_or row j [] ≡ value_of columns row name)
unfolding find_column_from
find_column_from-value_of k [] name h = absurd h
find_column_from-value_of k (column ∷ columns) name h =
    elim (Bool-cases (bytes_eq column.name name)) [
      | inl e ↦
          (0, rw e (ap some (omega arith)), λ row. get_or-value_of_here column columns name row e)
      | inr e ↦ elim h [
        | inl same ↦ absurd (cc (e, same))
        | inr there ↦
            let (j, found, value) = find_column_from-value_of (suc k) columns name there in
            (
              suc j,
              rw e (found ∙ ap some (omega arith)),
              get_or-value_of_later column columns name j e value,
            )
      ]
    ]

column_indices-value_of :
    (table : TableDef) (columns : List Bytes)
    → All (HasColumn table.columns) columns
    → (indices : List ℕ) × (column_indices table columns ≡ some indices)
      × ((row : List Bytes) → values_at indices row ≡ map (value_of table.columns row) columns)
unfolding column_indices find_column_index values_at
column_indices-value_of table [] h = ([], refl, λ row. refl)
column_indices-value_of table (column ∷ columns) h =
    let (j, found, value) = find_column_from-value_of 0 table.columns column h.0 in
    let (indices, rest, values) = column_indices-value_of table columns h.1 in
    let at : find_column_from 0 table.columns column ≡ some j = found ∙ ap some (omega arith) in
    (j ∷ indices, rw (at, rest) refl, λ row i. value row i ∷ values row i)

column_names-names : (columns : List ColumnDef) → column_names columns ≡ names columns
column_names-names [] = refl
column_names-names (column ∷ columns) = ap (◌∷◌ column.name) (column_names-names columns)

map_rows :
    (f g : List Bytes → List Bytes) (rows : List (List Bytes))
    → ((row : List Bytes) → f row ≡ g row)
    → map f rows ≡ map g rows
map_rows f g rows h = λ i. map (λ row. h row i) rows

map_same :
    (f : List Bytes → List Bytes) (rows : List (List Bytes))
    → ((row : List Bytes) → f row ≡ row)
    → rows ≡ map f rows
map_same f [] h = refl
map_same f (row ∷ rows) h = λ i. sym (h row) i ∷ map_same f rows h i

project_result_set-shown :
    (cmd : Command) (table : TableDef) (result : ResultSet)
    → SelectsColumns cmd table
    → project_result_set result table cmd
      ≡ filled (record {
        headers = shown_names cmd table;
        rows = map (shown_values cmd table) result.rows;
      })
unfolding project_result_set shown_names shown_values
project_result_set-shown cmd table result h = elim (Bool-cases cmd.is_select_all) [
  | inl e ↦ rw e (λ i. filled (record {
    headers = column_names-names table.columns i;
    rows = map_same (λ row. row) result.rows (λ row. refl) i;
  }))
  | inr e ↦ elim h [
    | inl all ↦ absurd (cc (e, all))
    | inr known ↦
        let (indices, found, values) = column_indices-value_of table cmd.columns known in
        rw (e, found)
          (λ i.
            filled (record { headers = cmd.columns; rows = map (λ row. values row i) result.rows }))
  ]
]

-- What is printed of a projected result is the text that is meant.
pub print-project_result_set :
    (cmd : Command) (table : TableDef) (result : ResultSet)
    → SelectsColumns cmd table
    → (shown : ResultSet) × (project_result_set result table cmd ≡ filled shown)
      × (print_result_set shown ≡ table_text cmd table result.rows)
print-project_result_set cmd table result h = (
  record { headers = shown_names cmd table; rows = map (shown_values cmd table) result.rows },
  project_result_set-shown cmd table result h,
  print_result_set-table_text cmd table result.rows,
)
