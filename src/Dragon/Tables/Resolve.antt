-- ===== src/Dragon/Tables/Resolve.antt =====
-- The indices that resolve_set_columns finds, and the writes of the SET clauses at them.
use jungle_week6_coding_sess.Prelude.{
  ℕ, suc, ◌+◌, arith, ◌≡◌, refl, sym, ap, ◌∙◌, subst, Bool, true, false, Bytes, List, [], ◌∷◌, map,
  some, All, Bool-cases, inl, inr, if◌then◌else◌, length, get_or, set, bytes_eq, bytes_eq_iff,
  replicate,
}
use jungle_week6_coding_sess.Prelude.Spec.{Distinct}
use jungle_week6_coding_sess.Dragon.Types.{ColumnDef, SetClause, TableDef}
use jungle_week6_coding_sess.Dragon.Storage.{find_column_from, find_column_index}
use jungle_week6_coding_sess.Dragon.Tables.{resolve_set_columns, set_values}
use jungle_week6_coding_sess.Dragon.Tables.Update.{
  HasColumn, names, set_names, new_value, updated, length-updated, updated_no_clause, updated_other,
  updated-updated,
}

-- The marks of the columns whose names pass a test.
abbrev marked : (Bytes → Bool) → List ColumnDef → List Bool
marked f columns = map (λ (c : ColumnDef). f c.name) columns

abbrev with_mark : Bytes → (Bytes → Bool) → Bytes → Bool
with_mark column f name = if bytes_eq name column then true else f name

marked_other :
    (f : Bytes → Bool) (column : Bytes) (columns : List ColumnDef)
    → All (λ other. bytes_eq other column ≡ false) (names columns)
    → marked f columns ≡ marked (with_mark column f) columns
marked_other f column [] h = refl
marked_other f column (c ∷ columns) h =
    rw h.0 (ap (◌∷◌ (f c.name)) (marked_other f column columns h.1))

-- What holds of the index that is found for the column of a clause: its mark is the one of the
-- column, and a write there is what the clause says.
record Sets (f : Bytes → Bool) (columns : List ColumnDef) (clause : SetClause) (j : ℕ)
    : Type 0 where
  before : get_or (marked f columns) j false ≡ f clause.column
  mark : set (marked f columns) j true ≡ marked (with_mark clause.column f) columns
  write :
      (row : List Bytes)
      → length row ≡ length columns
      → set row j clause.value ≡ updated columns (clause ∷ []) row

Sets-here :
    (f : Bytes → Bool) (column : ColumnDef) (columns : List ColumnDef) (clause : SetClause)
    → bytes_eq column.name clause.column ≡ true
    → All (λ other. bytes_eq other column.name ≡ false) (names columns)
    → Sets f (column ∷ columns) clause 0
unfolding updated new_value
Sets-here f column columns clause e distinct =
    let same = (bytes_eq_iff column.name clause.column).0 e in
    let others =
      subst (λ n. All (λ other. bytes_eq other n ≡ false) (names columns)) same distinct in
    record {
      before = ap f same;
      mark = rw e (ap (◌∷◌ true) (marked_other f clause.column columns others));
      write = write_here e others;
    }
  where
    write_here :
        bytes_eq column.name clause.column ≡ true
        → All (λ other. bytes_eq other clause.column ≡ false) (names columns)
        → (row : List Bytes) → length row ≡ length (column ∷ columns)
        → set row 0 clause.value ≡ updated (column ∷ columns) (clause ∷ []) row
    write_here e others [] h = refl
    write_here e others (value ∷ row) h =
        rw e (ap (◌∷◌ clause.value) (sym (updated_other columns clause row others)))

Sets-later :
    (f : Bytes → Bool) (column : ColumnDef) (columns : List ColumnDef) (clause : SetClause) (j : ℕ)
    → bytes_eq column.name clause.column ≡ false
    → Sets f columns clause j
    → Sets f (column ∷ columns) clause (suc j)
unfolding updated new_value
Sets-later f column columns clause j e s = record {
  before = s.before;
  mark = rw e (ap (◌∷◌ (f column.name)) s.mark);
  write = write_later e;
}
  where
    write_later :
        bytes_eq column.name clause.column ≡ false
        → (row : List Bytes) → length row ≡ length (column ∷ columns)
        → set row (suc j) clause.value ≡ updated (column ∷ columns) (clause ∷ []) row
    write_later e [] h = refl
    write_later e (value ∷ row) h = rw e (ap (◌∷◌ value) (s.write row (omega arith)))

find_column_from-Sets :
    (f : Bytes → Bool) (k : ℕ) (columns : List ColumnDef) (clause : SetClause)
    → HasColumn columns clause.column
    → Distinct (names columns)
    → (j : ℕ) × (find_column_from k columns clause.column ≡ some (k + j)) × Sets f columns clause j
unfolding find_column_from
find_column_from-Sets f k [] clause h d = absurd h
find_column_from-Sets f k (column ∷ columns) clause h d =
    elim (Bool-cases (bytes_eq column.name clause.column)) [
      | inl e ↦ (0, rw e (ap some (omega arith)), Sets-here f column columns clause e d.0)
      | inr e ↦ elim h [
        | inl same ↦ absurd (cc (e, same))
        | inr there ↦
            let (j, found, sets) = find_column_from-Sets f (suc k) columns clause there d.1 in
            (
              suc j,
              rw e (found ∙ ap some (omega arith)),
              Sets-later f column columns clause j e sets,
            )
      ]
    ]

-- The columns that are still to come are not marked.
with_mark-false :
    (f : Bytes → Bool) (column : Bytes) (clauses : List SetClause)
    → All (λ other. bytes_eq other column ≡ false) (set_names clauses)
    → All (λ other. f other ≡ false) (set_names clauses)
    → All (λ other. with_mark column f other ≡ false) (set_names clauses)
with_mark-false f column [] h k = tt
with_mark-false f column (clause ∷ clauses) h k =
    (rw h.0 k.0, with_mark-false f column clauses h.1 k.1)

module _ (table : TableDef) (distinct : Distinct (names table.columns)) where
  resolve_set_columns-marked :
      (f : Bytes → Bool) (clauses : List SetClause)
      → All (HasColumn table.columns) (set_names clauses)
      → Distinct (set_names clauses)
      → All (λ other. f other ≡ false) (set_names clauses)
      → (indices : List ℕ) × (resolve_set_columns table (marked f table.columns) clauses
          ≡ some indices)
        × ((row : List Bytes)
            → length row ≡ length table.columns
            → set_values indices clauses row ≡ updated table.columns clauses row)
  unfolding resolve_set_columns find_column_index set_values
  resolve_set_columns-marked f [] h d free =
      ([], refl, λ row n. sym (updated_no_clause table.columns row))
  resolve_set_columns-marked f (clause ∷ clauses) h d free =
      let (j, found, sets) = find_column_from-Sets f 0 table.columns clause h.0 distinct in
      let at : find_column_from 0 table.columns clause.column ≡ some j =
        found ∙ ap some (omega arith) in
      let (indices, rest, values) =
        resolve_set_columns-marked (with_mark clause.column f) clauses h.1 d.1
          (with_mark-false f clause.column clauses d.0 free.1) in
      (
        j ∷ indices,
        rw (resolve_set_columns, find_column_index, at, sets.before, free.0, sets.mark, rest) refl,
        λ row n.
            ap (set_values indices clauses) (sets.write row n)
            ∙ values (updated table.columns (clause ∷ []) row)
                (length-updated table.columns (clause ∷ []) row ∙ n)
            ∙ updated-updated table.columns clause clauses row,
      )

replicate-marked :
    (columns : List ColumnDef) → replicate (length columns) false ≡ marked (λ name. false) columns
unfolding replicate
replicate-marked [] = refl
replicate-marked (column ∷ columns) = ap (◌∷◌ false) (replicate-marked columns)

All-false : (names : List Bytes) → All (λ (name : Bytes). false ≡ false) names
All-false [] = tt
All-false (name ∷ names) = (refl, All-false names)

-- SET clauses for different columns of the table have their indices, and what is written at these
-- is what the clauses say.
pub resolve_set_columns-updated :
    (table : TableDef) (clauses : List SetClause)
    → Distinct (names table.columns)
    → All (HasColumn table.columns) (set_names clauses)
    → Distinct (set_names clauses)
    → (indices : List ℕ) × (resolve_set_columns table
          (replicate (length table.columns) false)
          clauses
        ≡ some indices)
      × ((row : List Bytes)
          → length row ≡ length table.columns
          → set_values indices clauses row ≡ updated table.columns clauses row)
resolve_set_columns-updated table clauses distinct h d =
    let (indices, found, values) =
      resolve_set_columns-marked table distinct (λ name. false) clauses h d
        (All-false (set_names clauses)) in
    (
      indices,
      ap (λ marks. resolve_set_columns table marks clauses) (replicate-marked table.columns)
          ∙ found,
      values,
    )
