-- ===== src/Hyeonok/Executor/Order.antt =====
-- The order of the values of an INSERT: each goes to the place of its column.
use jungle_week6_coding_sess.Prelude.{
  ℕ, suc, ◌+◌, ◌≡◌, refl, ap, ◌∙◌, false, Bytes, List, [], ◌∷◌, map, Option, some, none, maybe, All,
  Bool-cases, inl, inr, if◌then◌else◌, length, get_or, set, bytes_eq, bytes_eq_iff, subst,
  Option-cases, replicate, arith,
}
use jungle_week6_coding_sess.Prelude.Spec.{Distinct}
use jungle_week6_coding_sess.Hyeonok.Ast.{SqlValue, InsertStatement}
use jungle_week6_coding_sess.Hyeonok.Schema.{ColumnSchema, Schema}
use jungle_week6_coding_sess.Hyeonok.Executor.{
  find_from, find_schema_column_index, order_values, ordered_texts,
}
use jungle_week6_coding_sess.Hyeonok.Executor.Columns.{HasColumn, names}
use jungle_week6_coding_sess.Hyeonok.Executor.Fills.{HasName, given, row_given, FillsSchema}

abbrev Values : Type 0
Values = Bytes → Option SqlValue

-- The values at the places of their columns.
abbrev placed : Values → List ColumnSchema → List (Option SqlValue)
placed g columns = map (λ (c : ColumnSchema). g c.name) columns

-- One more value is given.
abbrev with_value : Bytes → SqlValue → Values → Values
with_value column value g name = if bytes_eq name column then some value else g name

placed-with_value_other :
    (g : Values) (column : Bytes) (value : SqlValue) (columns : List ColumnSchema)
    → All (λ other. bytes_eq other column ≡ false) (names columns)
    → placed g columns ≡ placed (with_value column value g) columns
placed-with_value_other g column value [] h = refl
placed-with_value_other g column value (c ∷ columns) h =
    rw h.0 (ap (◌∷◌ (g c.name)) (placed-with_value_other g column value columns h.1))

-- What holds of the index that is found for a column with this name: its place is the one of the
-- column, and a write there gives the column its value.
record Places (g : Values) (columns : List ColumnSchema) (name : Bytes) (j : ℕ) : Type 0 where
  before : get_or (placed g columns) j none ≡ g name
  write :
      (value : SqlValue)
      → set (placed g columns) j (some value) ≡ placed (with_value name value g) columns

Places-here :
    (g : Values) (column : ColumnSchema) (columns : List ColumnSchema) (name : Bytes)
    → column.name ≡ name
    → All (λ other. bytes_eq other column.name ≡ false) (names columns)
    → Places g (column ∷ columns) name 0
Places-here g column columns name same distinct = record {
  before = ap g same;
  write = λ value. rw ((bytes_eq_iff column.name name).1 same) (
      ap (◌∷◌ (some value)) (
        placed-with_value_other g name value columns
          (subst (λ n. All (λ other. bytes_eq other n ≡ false) (names columns)) same distinct)));
}

Places-later :
    (g : Values) (column : ColumnSchema) (columns : List ColumnSchema) (name : Bytes) (j : ℕ)
    → bytes_eq column.name name ≡ false
    → Places g columns name j
    → Places g (column ∷ columns) name (suc j)
Places-later g column columns name j other p = record {
  before = p.before;
  write = λ value. rw other (ap (◌∷◌ (g column.name)) (p.write value));
}

find_from-Places :
    (g : Values) (k : ℕ) (columns : List ColumnSchema) (name : Bytes)
    → HasColumn columns name
    → Distinct (names columns)
    → (j : ℕ) × (find_from k columns name ≡ some (k + j)) × Places g columns name j
unfolding find_from
find_from-Places g k [] name h d = absurd h
find_from-Places g k (column ∷ columns) name h d = elim (Bool-cases (bytes_eq column.name name)) [
  | inl e ↦ (
    0,
    rw e (ap some (omega arith)),
    Places-here g column columns name ((bytes_eq_iff column.name name).0 e) d.0,
  )
  | inr e ↦ elim h [
    | inl same ↦ absurd (cc (e, same))
    | inr there ↦
        let (j, found, places) = find_from-Places g (suc k) columns name there d.1 in
        (suc j, rw e (found ∙ ap some (omega arith)), Places-later g column columns name j e places)
  ]
]

-- With the values of some columns in front of those that were placed before.
abbrev given_or : List Bytes → List SqlValue → Values → Values
given_or columns values g name = maybe (given columns values name) (g name) some

given_or-with_value :
    (column : Bytes) (columns : List Bytes) (value : SqlValue) (values : List SqlValue) (g : Values)
    (name : Bytes)
    → given_or columns values (with_value column value g) name
      ≡ given_or (column ∷ columns) (value ∷ values) g name
unfolding given
given_or-with_value column columns value values g name =
    elim (Option-cases (given columns values name)) [
      | inr (v, e) ↦ rw e refl
      | inl e ↦ elim (Bool-cases (bytes_eq name column)) [
        | inl b ↦ rw (e, b) refl
        | inr b ↦ rw (e, b) refl
      ]
    ]

-- No value is placed for the columns that are still to come.
with_value-none :
    (g : Values) (column : Bytes) (value : SqlValue) (columns : List Bytes)
    → All (λ other. bytes_eq other column ≡ false) columns
    → All (λ other. g other ≡ none) columns
    → All (λ other. with_value column value g other ≡ none) columns
with_value-none g column value [] h k = tt
with_value-none g column value (other ∷ columns) h k =
    (rw h.0 k.0, with_value-none g column value columns h.1 k.1)

module _ (schema : Schema) (distinct : Distinct (names schema.columns)) where
  order_values-placed :
      (columns : List Bytes) (values : List SqlValue) (g : Values)
      → length columns ≡ length values
      → All (HasColumn schema.columns) columns
      → Distinct columns
      → All (λ other. g other ≡ none) columns
      → order_values schema columns values (placed g schema.columns)
        ≡ some (placed (given_or columns values g) schema.columns)
  unfolding order_values find_schema_column_index
  order_values-placed [] [] g n h d free = unfold given in refl
  order_values-placed [] (value ∷ values) g n h d free = absurd (omega arith)
  order_values-placed (column ∷ columns) [] g n h d free = absurd (omega arith)
  order_values-placed (column ∷ columns) (value ∷ values) g n h d free =
      let (j, found, places) = find_from-Places g 0 schema.columns column h.0 distinct in
      let at : find_from 0 schema.columns column ≡ some j = found ∙ ap some (omega arith) in
      let rest =
        order_values-placed columns values (with_value column value g) (omega arith) h.1 d.1
          (with_value-none g column value columns d.0 free.1) in
      rw (order_values, find_schema_column_index, at, places.before, free.0, places.write value)
        (rest ∙ λ i. some (
          placed (λ name. given_or-with_value column columns value values g name i) schema.columns))

given-HasName :
    (columns : List Bytes) (values : List SqlValue) (name : Bytes)
    → length columns ≡ length values
    → HasName columns name
    → (value : SqlValue) × (given columns values name ≡ some value)
unfolding given
given-HasName [] values name n h = absurd h
given-HasName (column ∷ columns) [] name n h = absurd (omega arith)
given-HasName (column ∷ columns) (value ∷ values) name n h =
    elim (Option-cases (given columns values name)) [
      | inr (v, e) ↦ (v, rw e refl)
      | inl e ↦ elim h [
        | inl same ↦ (value, rw (e, same) refl)
        | inr there ↦
            let (v, later) = given-HasName columns values name (omega arith) there in
            (v, rw later refl)
      ]
    ]

ordered_texts-placed :
    (g : Values) (columns : List ColumnSchema)
    → All (λ (c : ColumnSchema). (value : SqlValue) × (g c.name ≡ some value)) columns
    → ordered_texts (placed g columns)
      ≡ some (map (λ (c : ColumnSchema). maybe (g c.name) [] (λ v. v.text)) columns)
unfolding ordered_texts
ordered_texts-placed g [] h = refl
ordered_texts-placed g (column ∷ columns) h =
    let (value, e) = h.0 in rw (e, ordered_texts, ordered_texts-placed g columns h.1) refl

given-every :
    (columns : List Bytes) (values : List SqlValue) (in_schema : List ColumnSchema)
    → length columns ≡ length values
    → All (λ (c : ColumnSchema). HasName columns c.name) in_schema
    → All
        (λ (c : ColumnSchema). (value : SqlValue) × (given columns values c.name ≡ some value))
        in_schema
given-every columns values [] n h = tt
given-every columns values (c ∷ in_schema) n h =
    (given-HasName columns values c.name n h.0, given-every columns values in_schema n h.1)

replicate-placed :
    (columns : List ColumnSchema) → replicate (length columns) none ≡ placed (λ name. none) columns
unfolding replicate
replicate-placed [] = refl
replicate-placed (column ∷ columns) = ap (◌∷◌ none) (replicate-placed columns)

abbrev absent : Option SqlValue
absent = none

All-none : (columns : List Bytes) → All (λ (name : Bytes). absent ≡ none) columns
All-none [] = tt
All-none (column ∷ columns) = (refl, All-none columns)

given_or-none :
    (columns : List Bytes) (values : List SqlValue) (name : Bytes)
    → given_or columns values (λ m. none) name ≡ given columns values name
given_or-none columns values name = elim (Option-cases (given columns values name)) [
  | inl e ↦ rw e refl
  | inr (v, e) ↦ rw e refl
]

-- The values of an INSERT that names every column once, in the order of the schema.
pub order_values-FillsSchema :
    (insert : InsertStatement) (schema : Schema)
    → FillsSchema insert schema
    → (ordered : List (Option SqlValue)) × (order_values schema insert.columns insert.values
          (replicate (length schema.columns) none)
        ≡ some ordered)
      × (ordered_texts ordered ≡ some (row_given insert schema))
unfolding row_given
order_values-FillsSchema insert schema h = (
  placed (given insert.columns insert.values) schema.columns,
  ap (order_values schema insert.columns insert.values) (replicate-placed schema.columns)
      ∙ order_values-placed schema h.names insert.columns insert.values (λ name. none) h.values
          h.known h.once (All-none insert.columns)
      ∙ (λ i.
          some (placed (λ name. given_or-none insert.columns insert.values name i) schema.columns)),
  ordered_texts-placed (given insert.columns insert.values) schema.columns
      (given-every insert.columns insert.values schema.columns h.values h.every),
)
