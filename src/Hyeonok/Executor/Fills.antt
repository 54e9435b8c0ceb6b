-- ===== src/Hyeonok/Executor/Fills.antt =====
-- What an INSERT is to store: the value that it gives for each column of the schema, by its name.
use jungle_week6_coding_sess.Prelude.{
  ◌≡◌, ◌⊎◌, true, Bytes, List, [], ◌∷◌, map, Option, some, none, maybe, All, if◌then◌else◌, length,
  bytes_eq,
}
use jungle_week6_coding_sess.Prelude.Spec.{Distinct}
use jungle_week6_coding_sess.Hyeonok.Ast.{SqlValue, InsertStatement}
use jungle_week6_coding_sess.Hyeonok.Schema.{ColumnSchema, Schema}
use jungle_week6_coding_sess.Hyeonok.Executor.Columns.{HasColumn, names}

-- The name is one of these.
abbrev pub HasName : List Bytes → Bytes → Type 0
HasName [] name = ⊥
HasName (column ∷ columns) name = (bytes_eq name column ≡ true) ⊎ HasName columns name

-- The value that an INSERT gives for the column with the name.
unfoldable pub given : List Bytes → List SqlValue → Bytes → Option SqlValue
given (column ∷ columns) (value ∷ values) name =
    let later = given columns values name in
    maybe later (if bytes_eq name column then some value else none) some
given _ _ name = none

-- The row that an INSERT is to store: at each column of the schema, the text that it gives for it.
unfoldable pub row_given : InsertStatement → Schema → List Bytes
row_given insert schema =
    map (λ (c : ColumnSchema). maybe (given insert.columns insert.values c.name) [] (λ v. v.text))
      schema.columns

-- The INSERT has a value for each of its columns, and names every column of the schema once.
pub record FillsSchema (insert : InsertStatement) (schema : Schema) : Type 0 where
  pub values : length insert.columns ≡ length insert.values
  pub columns : length insert.columns ≡ length schema.columns
  pub known : All (HasColumn schema.columns) insert.columns
  pub once : Distinct insert.columns
  pub every : All (λ (c : ColumnSchema). HasName insert.columns c.name) schema.columns
  pub names : Distinct (names schema.columns)
