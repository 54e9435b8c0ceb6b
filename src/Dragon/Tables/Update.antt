-- ===== src/Dragon/Tables/Update.antt =====
-- What the SET clauses of an UPDATE make of a row.
use jungle_week6_coding_sess.Prelude.{
  suc, ◌≡◌, ◌⊎◌, refl, ap, true, false, Bytes, List, [], ◌∷◌, map, All, Bool-cases, inl, inr,
  if◌then◌else◌, length, bytes_eq,
}
use jungle_week6_coding_sess.Dragon.Types.{ColumnDef, SetClause}

-- One of the columns has the name.
abbrev pub HasColumn : List ColumnDef → Bytes → Type 0
HasColumn [] name = ⊥
HasColumn (column ∷ columns) name = (bytes_eq column.name name ≡ true) ⊎ HasColumn columns name

abbrev pub names : List ColumnDef → List Bytes
names columns = map (λ (c : ColumnDef). c.name) columns

abbrev pub set_names : List SetClause → List Bytes
set_names clauses = map (λ (c : SetClause). c.column) clauses

-- The value of a column behind the clauses: the one that they set for its name, or else the old one.
unfoldable pub new_value : List SetClause → Bytes → Bytes → Bytes
new_value [] name value = value
new_value (clause ∷ clauses) name value =
    new_value clauses name (if bytes_eq name clause.column then clause.value else value)

-- The row behind the clauses, column by column.
unfoldable pub updated : List ColumnDef → List SetClause → List Bytes → List Bytes
updated (column ∷ columns) clauses (value ∷ row) =
    new_value clauses column.name value ∷ updated columns clauses row
updated _ clauses row = row

pub length-updated :
    (columns : List ColumnDef) (clauses : List SetClause) (row : List Bytes)
    → length (updated columns clauses row) ≡ length row
unfolding updated
length-updated [] clauses row = refl
length-updated (column ∷ columns) clauses [] = refl
length-updated (column ∷ columns) clauses (value ∷ row) =
    ap suc (length-updated columns clauses row)

All-new_value :
    (P : Bytes → Type 0) (clauses : List SetClause) (name value : Bytes)
    → P value
    → All (λ (c : SetClause). P c.value) clauses
    → P (new_value clauses name value)
unfolding new_value
All-new_value P [] name value p h = p
All-new_value P (clause ∷ clauses) name value p h =
    elim (Bool-cases (bytes_eq name clause.column)) [
      | inl e ↦ rw e (All-new_value P clauses name clause.value h.0 h.1)
      | inr e ↦ rw e (All-new_value P clauses name value p h.1)
    ]

pub All-updated :
    (P : Bytes → Type 0) (columns : List ColumnDef) (clauses : List SetClause) (row : List Bytes)
    → All P row
    → All (λ (c : SetClause). P c.value) clauses
    → All P (updated columns clauses row)
unfolding updated
All-updated P [] clauses row p h = p
All-updated P (column ∷ columns) clauses [] p h = tt
All-updated P (column ∷ columns) clauses (value ∷ row) p h =
    (All-new_value P clauses column.name value p.0 h, All-updated P columns clauses row p.1 h)

pub updated_no_clause : (columns : List ColumnDef) (row : List Bytes) → updated columns [] row ≡ row
unfolding updated new_value
updated_no_clause [] row = refl
updated_no_clause (column ∷ columns) [] = refl
updated_no_clause (column ∷ columns) (value ∷ row) = ap (◌∷◌ value) (updated_no_clause columns row)

pub updated_other :
    (columns : List ColumnDef) (clause : SetClause) (row : List Bytes)
    → All (λ other. bytes_eq other clause.column ≡ false) (names columns)
    → updated columns (clause ∷ []) row ≡ row
unfolding updated new_value
updated_other [] clause row h = refl
updated_other (column ∷ columns) clause [] h = refl
updated_other (column ∷ columns) clause (value ∷ row) h =
    rw h.0 (ap (◌∷◌ value) (updated_other columns clause row h.1))

pub updated-updated :
    (columns : List ColumnDef) (clause : SetClause) (clauses : List SetClause) (row : List Bytes)
    → updated columns clauses (updated columns (clause ∷ []) row)
      ≡ updated columns (clause ∷ clauses) row
unfolding updated new_value
updated-updated [] clause clauses row = refl
updated-updated (column ∷ columns) clause clauses [] = refl
updated-updated (column ∷ columns) clause clauses (value ∷ row) =
    let first = if bytes_eq column.name clause.column then clause.value else value in
    ap (◌∷◌ (new_value clauses column.name first)) (updated-updated columns clause clauses row)
