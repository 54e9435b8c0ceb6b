-- ===== src/Dragon/Executor/Update.antt =====
-- UPDATE on the file of a table.
use jungle_week6_coding_sess.Prelude.{
  ℕ, suc, arith, ◌≡◌, ◌≤◌, refl, ap, ap₂, ◌∙◌, true, Bytes, List, [], ◌∷◌, ◌++◌, map, append-nil,
  Option, some, none, length, All, Bool-cases, inl, inr, if◌then◌else◌,
}
use jungle_week6_coding_sess.Prelude.Spec.{Distinct}
use jungle_week6_coding_sess.Libc.Disk.{FilePath}
use jungle_week6_coding_sess.Libc.Text.Lines.{IsInLine}
use jungle_week6_coding_sess.Dragon.Types.{
  WhereCondition, SetClause, TableDef, Command, filled, max_rows,
}
use jungle_week6_coding_sess.Dragon.Rows.RoundTrip.{IsValue}
use jungle_week6_coding_sess.Dragon.Storage.{
  FileStore, find_table, build_table_path, file_storage_create, file_read_all_rows,
}
use jungle_week6_coding_sess.Dragon.Storage.Reload.{IsRow, file_read_all_rows-file_replace_rows}
use jungle_week6_coding_sess.Dragon.Tables.{set_values}
use jungle_week6_coding_sess.Dragon.Tables.Update.{
  HasColumn, names, set_names, updated, length-updated, All-updated,
}
use jungle_week6_coding_sess.Dragon.Tables.Resolve.{resolve_set_columns-updated}
use jungle_week6_coding_sess.Dragon.Executor.{
  Process, print_error, resolve_where_column, updated_row, update_result, replace, execute_update,
}
use jungle_week6_coding_sess.Dragon.Executor.Delete.{is_affected, whole}

-- The clauses set different columns of the table, to values that can be read back.
pub record IsUpdate (table : TableDef) (clauses : List SetClause) : Type 0 where
  pub known : All (HasColumn table.columns) (set_names clauses)
  pub once : Distinct (set_names clauses)
  pub values : All (λ (c : SetClause). IsValue c.value) clauses
  pub in_line : All (λ (c : SetClause). All IsInLine c.value) clauses

-- The row that is meant: the clauses are for the rows that match the condition, or for each row if
-- there is none.
unfoldable pub row_meant :
    TableDef → Option (ℕ × WhereCondition) → List SetClause → List Bytes → List Bytes
row_meant table condition clauses row =
    if is_affected condition row then updated table.columns clauses row else row

module _ (table : TableDef) (condition : Option (ℕ × WhereCondition)) (clauses : List SetClause)
    (u : IsUpdate table clauses) where
  IsRow-row_meant :
      (row : List Bytes)
      → IsRow (length table.columns) row
      → IsRow (length table.columns) (row_meant table condition clauses row)
  unfolding row_meant
  IsRow-row_meant row h = elim (Bool-cases (is_affected condition row)) [
    | inr e ↦ rw e h
    | inl e ↦ rw e (record {
      count = length-updated table.columns clauses row ∙ h.count;
      values = All-updated IsValue table.columns clauses row h.values u.values;
      in_line = All-updated (All IsInLine) table.columns clauses row h.in_line u.in_line;
    })
  ]

  All-row_meant :
      (rows : List (List Bytes))
      → All (IsRow (length table.columns)) rows
      → All (IsRow (length table.columns)) (map (row_meant table condition clauses) rows)
  All-row_meant [] h = tt
  All-row_meant (row ∷ rows) h = (IsRow-row_meant row h.0, All-row_meant rows h.1)

  length-row_meant :
      (rows : List (List Bytes))
      → length (map (row_meant table condition clauses) rows) ≡ length rows
  length-row_meant [] = refl
  length-row_meant (row ∷ rows) = ap suc (length-row_meant rows)

updated_row-row_meant :
    (table : TableDef) (condition : Option (ℕ × WhereCondition)) (clauses : List SetClause)
    (indices : List ℕ) (row : List Bytes)
    → set_values indices clauses row ≡ updated table.columns clauses row
    → updated_row condition indices clauses row ≡ row_meant table condition clauses row
unfolding updated_row row_meant is_affected
updated_row-row_meant table none clauses indices row h = h
updated_row-row_meant table (some (i, condition)) clauses indices row h =
    ap (λ r. if is_affected (some (i, condition)) row then r else row) h

updated_rows-row_meant :
    (table : TableDef) (condition : Option (ℕ × WhereCondition)) (clauses : List SetClause)
    (indices : List ℕ) (rows : List (List Bytes))
    → ((row : List Bytes)
        → length row ≡ length table.columns
        → set_values indices clauses row ≡ updated table.columns clauses row)
    → All (IsRow (length table.columns)) rows
    → map (updated_row condition indices clauses) rows
      ≡ map (row_meant table condition clauses) rows
updated_rows-row_meant table condition clauses indices [] values h = refl
updated_rows-row_meant table condition clauses indices (row ∷ rows) values h =
    ap₂ (◌∷◌) (updated_row-row_meant table condition clauses indices row (values row h.0.count))
      (updated_rows-row_meant table condition clauses indices rows values h.1)

-- On a table of the store, whose columns have different names, that is read as at most 1024 rows
-- that can be read back, and whose file may be read and written, an UPDATE whose WHERE column
-- exists and which sets different columns of the table, to values that can be read back, succeeds
-- and prints nothing. The table is then read as the same rows in their order, where in each row
-- that matches the condition, or in each row if there is none, the columns that are set have their
-- new values and the others their old ones.
pub execute_update-file_read_all_rows :
    (store : FileStore) (cmd : Command) (table : TableDef) (path : FilePath)
    (condition : Option (ℕ × WhereCondition)) (rows : List (List Bytes)) (s : Process)
    → find_table store.tables cmd.table_name ≡ some table
    → build_table_path store cmd.table_name ≡ some path
    → length table.columns ≤ 32
    → Distinct (names table.columns)
    → s.disk.can_write path ≡ true
    → s.disk.can_read path ≡ true
    → file_read_all_rows store cmd.table_name s.disk ≡ filled (whole table rows)
    → resolve_where_column table cmd.where_condition ≡ filled condition
    → IsUpdate table cmd.set_clauses
    → length rows ≤ max_rows
    → All (IsRow (length table.columns)) rows
    → (s' : Process) × (execute_update cmd (file_storage_create store) table s ≡ (true, s'))
      × (s'.output ≡ s.output)
      × (s'.errors ≡ s.errors)
      × (file_read_all_rows store cmd.table_name s'.disk
          ≡ filled (whole table (map (row_meant table condition cmd.set_clauses) rows)))
unfolding execute_update update_result replace print_error file_storage_create
execute_update-file_read_all_rows store cmd table path condition rows s found named narrow distinct
      writable readable holds resolved u few h =
    let clauses = cmd.set_clauses in
    let (indices, columns, values) =
      resolve_set_columns-updated table clauses distinct u.known u.once in
    let rows' = map (row_meant table condition clauses) rows in
    let (disk', replaced, reload, _, _) =
      file_read_all_rows-file_replace_rows store table cmd.table_name path rows' s.disk found named
        narrow writable readable
        (omega (arith, few, length-row_meant table condition clauses u rows))
        (All-row_meant table condition clauses u rows h) in
    (
      record s { disk = disk'; errors = s.errors ++ [] },
      rw
          (
            execute_update,
            update_result,
            holds,
            resolved,
            columns,
            updated_rows-row_meant table condition clauses indices rows values h,
            replace,
            replaced,
          )
          refl,
      refl,
      append-nil s.errors,
      reload,
    )
