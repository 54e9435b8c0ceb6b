-- ===== src/Hyeonok/Executor/Columns.antt =====
-- The columns that a SELECT shows and those that an INSERT fills, by their names.
use jungle_week6_coding_sess.Prelude.{
  ℕ, zero, suc, ◌+◌, ◌<◌, ◌≡◌, ◌⊎◌, refl, sym, ap, ◌∙◌, true, false, Bytes, List, [], ◌∷◌, ◌++◌,
  map, some, All, Bool-cases, inl, inr, if◌then◌else◌, length, get_or, drop, drop_all, bytes_eq,
  append_assoc, arith,
}
use jungle_week6_coding_sess.Prelude.Spec.{concat, comma_line}
use jungle_week6_coding_sess.Hyeonok.Ast.{SelectStatement}
use jungle_week6_coding_sess.Hyeonok.Schema.{ColumnSchema, Schema}
use jungle_week6_coding_sess.Hyeonok.Storage.{line_feed}
use jungle_week6_coding_sess.Hyeonok.Executor.{
  find_from, find_schema_column_index, all_indexes, find_indexes, build_select_column_indexes,
  print_texts, column_names, items_at, print_selected_header, print_selected_row,
}

-- One of the columns has the name.
abbrev pub HasColumn : List ColumnSchema → Bytes → Type 0
HasColumn [] name = ⊥
HasColumn (column ∷ columns) name = (bytes_eq column.name name ≡ true) ⊎ HasColumn columns name

-- The value of the row at the column with the name.
unfoldable pub value_of : List ColumnSchema → List Bytes → Bytes → Bytes
value_of (column ∷ columns) (value ∷ row) name =
    let later = value_of columns row name in if bytes_eq column.name name then value else later
value_of _ _ name = []

abbrev pub names : List ColumnSchema → List Bytes
names columns = map (λ (c : ColumnSchema). c.name) columns

-- All columns that a SELECT names are columns of the schema.
abbrev pub SelectsColumns : SelectStatement → Schema → Type 0
SelectsColumns select schema =
    (select.select_all ≡ true) ⊎ All (HasColumn schema.columns) select.columns

-- The names that a SELECT is to show, and the values of a row: with `*` all of them, and else those
-- of the columns that it names.
unfoldable pub shown_names : SelectStatement → Schema → List Bytes
shown_names select schema = if select.select_all then names schema.columns else select.columns

unfoldable pub shown_values : SelectStatement → Schema → List Bytes → List Bytes
shown_values select schema row =
    if select.select_all then row else map (value_of schema.columns row) select.columns

print_texts-comma_line : (texts : List Bytes) → print_texts texts ≡ comma_line texts
unfolding print_texts comma_line concat
print_texts-comma_line [] = refl
print_texts-comma_line (text ∷ []) = refl
print_texts-comma_line (text ∷ next ∷ texts) =
    ap (λ rest. text ++ (b',' ∷ rest))
      (print_texts-comma_line (next ∷ texts)
        ∙ sym (append_assoc next (concat (map (◌∷◌ b',') texts)) (line_feed ∷ [])))

get_or-value_of_here :
    (column : ColumnSchema) (columns : List ColumnSchema) (name : Bytes) (row : List Bytes)
    → bytes_eq column.name name ≡ true
    → get_or row 0 [] ≡ value_of (column ∷ columns) row name
unfolding value_of
get_or-value_of_here column columns name [] e = refl
get_or-value_of_here column columns name (value ∷ row) e = rw e refl

get_or-value_of_later :
    (column : ColumnSchema) (columns : List ColumnSchema) (name : Bytes) (j : ℕ)
    → bytes_eq column.name name ≡ false
    → ((row : List Bytes) → get_or row j [] ≡ value_of columns row name)
    → (row : List Bytes) → get_or row (suc j) [] ≡ value_of (column ∷ columns) row name
unfolding value_of
get_or-value_of_later column columns name j e h [] = refl
get_or-value_of_later column columns name j e h (value ∷ row) = rw e (h row)

-- The index of a column with the name leads to the value for the name.
find_from-value_of :
    (k : ℕ) (columns : List ColumnSchema) (name : Bytes)
    → HasColumn columns name
    → (j : ℕ) × (find_from k columns name ≡ some (k + j))
      × ((row : List Bytes) → get_or row j [] ≡ value_of columns row name)
unfolding find_from
find_from-value_of k [] name h = absurd h
find_from-value_of k (column ∷ columns) name h = elim (Bool-cases (bytes_eq column.name name)) [
  | inl e ↦ (0, rw e (ap some (omega arith)), λ row. get_or-value_of_here column columns name row e)
  | inr e ↦ elim h [
    | inl same ↦ absurd (cc (e, same))
    | inr there ↦
        let (j, found, value) = find_from-value_of (suc k) columns name there in
        (
          suc j,
          rw e (found ∙ ap some (omega arith)),
          get_or-value_of_later column columns name j e value,
        )
  ]
]

find_indexes-value_of :
    (schema : Schema) (columns : List Bytes)
    → All (HasColumn schema.columns) columns
    → (indexes : List ℕ) × (find_indexes schema columns ≡ some indexes)
      × ((row : List Bytes) → items_at indexes row ≡ map (value_of schema.columns row) columns)
unfolding find_indexes find_schema_column_index items_at
find_indexes-value_of schema [] h = ([], refl, λ row. refl)
find_indexes-value_of schema (column ∷ columns) h =
    let (j, found, value) = find_from-value_of 0 schema.columns column h.0 in
    let (indexes, rest, values) = find_indexes-value_of schema columns h.1 in
    let at : find_from 0 schema.columns column ≡ some j = found ∙ ap some (omega arith) in
    (j ∷ indexes, rw (at, rest) refl, λ row i. value row i ∷ values row i)

drop_at :
    (k : ℕ) (items : List Bytes)
    → k < length items
    → drop k items ≡ get_or items k [] ∷ drop (suc k) items
unfolding drop
drop_at k [] h = absurd (omega arith)
drop_at zero (item ∷ items) h = refl
drop_at (suc k) (item ∷ items) h = drop_at k items (omega arith)

items_at-all_indexes :
    (k : ℕ) (columns : List ColumnSchema) (items : List Bytes)
    → length items ≡ k + length columns
    → items_at (all_indexes k columns) items ≡ drop k items
unfolding items_at all_indexes
items_at-all_indexes k [] items h = sym (drop_all k items (omega arith))
items_at-all_indexes k (column ∷ columns) items h =
    ap (◌∷◌ (get_or items k [])) (items_at-all_indexes (suc k) columns items (omega arith))
    ∙ sym (drop_at k items (omega arith))

items_at_all :
    (columns : List ColumnSchema) (items : List Bytes)
    → length items ≡ length columns
    → items_at (all_indexes 0 columns) items ≡ items
unfolding drop
items_at_all columns items h = items_at-all_indexes 0 columns items (omega arith)

column_names-names : (columns : List ColumnSchema) → column_names columns ≡ names columns
column_names-names [] = refl
column_names-names (column ∷ columns) = ap (◌∷◌ column.name) (column_names-names columns)

length-names : (columns : List ColumnSchema) → length (names columns) ≡ length columns
length-names [] = refl
length-names (column ∷ columns) = ap suc (length-names columns)

-- What the indexes of a SELECT print: the names and the values that it is to show.
pub record Prints (select : SelectStatement) (schema : Schema) (indexes : List ℕ) : Type 0 where
  pub header : print_selected_header select schema indexes ≡ comma_line (shown_names select schema)
  pub line :
      (row : List Bytes)
      → length row ≡ length schema.columns
      → print_selected_row row indexes ≡ comma_line (shown_values select schema row)

Prints-all :
    (select : SelectStatement) (schema : Schema)
    → select.select_all ≡ true
    → Prints select schema (all_indexes 0 schema.columns)
unfolding print_selected_header print_selected_row shown_names shown_values
Prints-all select schema all = record {
  header =
      rw (print_selected_header, shown_names, all)
        (ap print_texts (
            ap (items_at (all_indexes 0 schema.columns)) (column_names-names schema.columns)
            ∙ items_at_all schema.columns (names schema.columns) (length-names schema.columns))
          ∙ print_texts-comma_line (names schema.columns));
  line = λ row h.
      rw (shown_values, all)
        (ap print_texts (items_at_all schema.columns row h) ∙ print_texts-comma_line row);
}

Prints-columns :
    (select : SelectStatement) (schema : Schema) (indexes : List ℕ)
    → select.select_all ≡ false
    → ((row : List Bytes) → items_at indexes row ≡ map (value_of schema.columns row) select.columns)
    → Prints select schema indexes
unfolding print_selected_header print_selected_row shown_names shown_values
Prints-columns select schema indexes some_columns values = record {
  header =
      rw (print_selected_header, shown_names, some_columns) (print_texts-comma_line select.columns);
  line = λ row h.
      rw (shown_values, some_columns)
        (ap print_texts (values row)
          ∙ print_texts-comma_line (map (value_of schema.columns row) select.columns));
}

-- A SELECT of columns of the schema has indexes, and they print what it is to show.
pub build_select_column_indexes-Prints :
    (select : SelectStatement) (schema : Schema)
    → SelectsColumns select schema
    → (indexes : List ℕ) × (build_select_column_indexes select schema ≡ some indexes)
      × Prints select schema indexes
unfolding build_select_column_indexes
build_select_column_indexes-Prints select schema h = elim (Bool-cases select.select_all) [
  | inl e ↦ (
    all_indexes 0 schema.columns,
    rw (build_select_column_indexes, e) refl,
    Prints-all select schema e,
  )
  | inr e ↦ elim h [
    | inl all ↦ absurd (cc (e, all))
    | inr known ↦
        let (indexes, found, values) = find_indexes-value_of schema select.columns known in
        (
          indexes,
          rw (build_select_column_indexes, e) found,
          Prints-columns select schema indexes e values,
        )
  ]
]
