-- ===== src/Jiun/Parser/Plan.antt =====
-- The values that an INSERT stores.
use jungle_week6_coding_sess.Prelude.{
  ℕ, zero, suc, ◌<◌, ◌≡◌, refl, sym, ◌∙◌, subst, Bool, true, false, ◌&&◌, Bytes, List, [], ◌∷◌,
  length, length-set, length-replicate, replicate, get_or, get_or-set_self, get_or-set_ne, ◌||◌,
  set, take, codes, arith, inl, inr, Bool-cases, Option-cases, ◌==◌, ◌≢◌,
}
use jungle_week6_coding_sess.Jiun.Types.{
  Column, TableSchema, SchemaRegistry, InsertPlan, ok, invalid_query, table_not_found,
  count_mismatch,
}
use jungle_week6_coding_sess.Jiun.Results.{ok-bind, ok-want, ok-guard, eq_of_ok}
use jungle_week6_coding_sess.Jiun.Text.{
  ci_equal, skip_ws, parse_identifier, consume_keyword, is_empty, is_integer_literal,
  is_unsigned_literal, all_digits,
}
use jungle_week6_coding_sess.Jiun.Values.{Value, split_csv_like_ident_list, split_values_list}
use jungle_week6_coding_sess.Jiun.Parser.{
  find_col_index, find_table, column_segment, value_segment, expect, type_at, is_bad_int,
  assign_items, all_assigned, insert_plan, parse_insert,
}
use jungle_week6_coding_sess.Jiun.Parser.Indexes.{find_col_index-lt}

-- A value for every column, and an integer literal for those of type `int`.
pub record IsTyped (columns : List Column) (values : List Bytes) : Type 0 where
  pub count : length values ≡ length columns
  pub literal :
      (i : ℕ)
      → i < length columns
      → ci_equal (type_at columns i) (codes "int") ≡ true
      → is_integer_literal (get_or values i []) ≡ true

all_digits-take : (n : ℕ) (s : Bytes) → all_digits s ≡ true → all_digits (take n s) ≡ true
unfolding all_digits take
all_digits-take zero s h = refl
all_digits-take (suc n) [] h = refl
all_digits-take (suc n) (c ∷ s) h = ground (arith, all_digits-take n s)

is_unsigned_literal-take :
    (n : ℕ) (s : Bytes) → is_unsigned_literal s ≡ true → is_unsigned_literal (take (suc n) s) ≡ true
unfolding is_unsigned_literal take
is_unsigned_literal-take n [] h = absurd cc
is_unsigned_literal-take n (c ∷ s) h = all_digits-take (suc n) (c ∷ s) h

-- The buffer of a value keeps a literal a literal.
is_integer_literal-take :
    (n : ℕ) (s : Bytes)
    → is_integer_literal s ≡ true
    → is_integer_literal (take (suc (suc n)) s) ≡ true
unfolding is_integer_literal take
is_integer_literal-take n [] h = absurd cc
is_integer_literal-take n (c ∷ s) h = elim (Bool-cases (c == b'+' || c == b'-')) [
  | inl e ↦ rw e (is_unsigned_literal-take n s (rw e at h))
  | inr e ↦ rw e (is_unsigned_literal-take (suc n) (c ∷ s) (rw e at h))
]

good_int :
    (type : Bytes) (value : Value)
    → is_bad_int type value ≡ false
    → ci_equal type (codes "int") ≡ true
    → is_integer_literal (take 4095 value.text) ≡ true
unfolding is_bad_int
good_int type value h e = is_integer_literal-take 4093 value.text (ground arith)

-- The columns that are marked hold what their type asks for.
record IsMarked (columns : List Column) (values : List Bytes) (assigned : List Bool) : Type 0 where
  count : length values ≡ length columns
  marks : length assigned ≡ length columns
  literal :
      (i : ℕ)
      → i < length columns
      → get_or assigned i false ≡ true
      → ci_equal (type_at columns i) (codes "int") ≡ true
      → is_integer_literal (get_or values i []) ≡ true

module _ {columns : List Column} {values : List Bytes} {assigned : List Bool} where
  IsMarked-set :
      IsMarked columns values assigned
      → (idx : ℕ) (value : Value) → idx < length columns
      → is_bad_int (type_at columns idx) value ≡ false
      → IsMarked columns (set values idx (take 4095 value.text)) (set assigned idx true)
  IsMarked-set m idx value within good = record {
    count = length-set values idx _ ∙ m.count;
    marks = length-set assigned idx _ ∙ m.marks;
    literal = λ i lt marked int. elim (Bool-cases (idx == i)) [
      | inl e ↦
          let same : idx ≡ i = ground arith in
          subst
            (λ i.
              ci_equal (type_at columns i) (codes "int") ≡ true
              → is_integer_literal (get_or (set values idx (take 4095 value.text)) i []) ≡ true)
            same
            (λ int.
              rw (get_or-set_self values idx (take 4095 value.text) [] (omega (arith, m.count)))
                (good_int (type_at columns idx) value good int))
            int
      | inr e ↦
          let other : idx ≢ i = ground arith in
          rw (get_or-set_ne values idx i (take 4095 value.text) [] other)
            (m.literal i lt (sym (get_or-set_ne assigned idx i true false other) ∙ marked) int)
    ];
  }

assign_items-IsMarked :
    (schema : TableSchema) (cols : List Bytes) (vals : List Value) (values : List Bytes)
    (assigned : List Bool) (values' : List Bytes) (assigned' : List Bool)
    → IsMarked schema.columns values assigned
    → assign_items schema cols vals values assigned ≡ ok (values', assigned')
    → IsMarked schema.columns values' assigned'
unfolding assign_items
assign_items-IsMarked schema [] vals values assigned values' assigned' m h =
    subst (λ (t : List Bytes × List Bool). IsMarked schema.columns t.0 t.1) (eq_of_ok h) m
assign_items-IsMarked schema (col ∷ cols) [] values assigned values' assigned' m h =
    subst (λ (t : List Bytes × List Bool). IsMarked schema.columns t.0 t.1) (eq_of_ok h) m
assign_items-IsMarked schema (col ∷ cols) (value ∷ vals) values assigned values' assigned' m h =
    elim (Option-cases (find_col_index schema col)) [
      | inl e ↦ absurd (cc (rw (assign_items, e) at h))
      | inr (idx, e) ↦ elim (Bool-cases (get_or assigned idx false)) [
        | inl twice ↦ absurd (cc (rw (assign_items, e, twice) at h))
        | inr once ↦ elim (Bool-cases (is_bad_int (type_at schema.columns idx) value)) [
          | inl bad ↦ absurd (cc (rw (assign_items, e, once, bad) at h))
          | inr good ↦
              assign_items-IsMarked schema cols vals (set values idx (take 4095 value.text))
                (set assigned idx true) values' assigned'
                (IsMarked-set m idx value (find_col_index-lt schema col idx e) good)
                (rw (assign_items, e, once, good) at h)
        ]
      ]
    ]

get_or-all_assigned :
    (assigned : List Bool) (i : ℕ)
    → all_assigned assigned ≡ true
    → i < length assigned
    → get_or assigned i false ≡ true
unfolding all_assigned
get_or-all_assigned [] i h lt = absurd (omega arith)
get_or-all_assigned (true ∷ assigned) zero h lt = refl
get_or-all_assigned (true ∷ assigned) (suc i) h lt = get_or-all_assigned assigned i h (omega arith)
get_or-all_assigned (false ∷ assigned) i h lt = absurd cc

get_or-replicate : (n i : ℕ) → get_or (replicate n false) i false ≡ false
unfolding replicate
get_or-replicate zero i = refl
get_or-replicate (suc n) zero = refl
get_or-replicate (suc n) (suc i) = get_or-replicate n i

IsMarked-start :
    (columns : List Column)
    → IsMarked columns (replicate (length columns) []) (replicate (length columns) false)
IsMarked-start columns = record {
  count = length-replicate (length columns) [];
  marks = length-replicate (length columns) false;
  literal = λ i lt marked int. absurd (cc (get_or-replicate (length columns) i, marked));
}

insert_plan-IsTyped :
    (schema : TableSchema) (cols : List Bytes) (vals : List Value) (plan : InsertPlan)
    → insert_plan schema cols vals ≡ ok plan
    → IsTyped plan.schema.columns plan.values
unfolding insert_plan
insert_plan-IsTyped schema cols vals plan h =
    let count = length schema.columns in
    let (_, h) =
      ok-guard (length cols == length vals && length cols == count) count_mismatch _ plan h in
    let ((values, assigned), from, h) =
      ok-bind (assign_items schema cols vals (replicate count []) (replicate count false)) _ plan
        h in
    let (all, h) = ok-guard (all_assigned assigned) count_mismatch _ plan h in
    let m =
      assign_items-IsMarked schema cols vals _ _ values assigned (IsMarked-start schema.columns)
        from in
    subst (λ (plan : InsertPlan). IsTyped plan.schema.columns plan.values) (eq_of_ok h)
      (record {
        count = m.count;
        literal = λ i lt int.
            m.literal i lt (get_or-all_assigned assigned i all (omega (arith, m.marks))) int;
      })

-- A plan that parse_insert makes has a value for every column of its table, and every value of a
-- column of type `int`, in whatever order the columns were named, is an integer literal.
pub parse_insert-IsTyped :
    (stmt : Bytes) (reg : SchemaRegistry) (plan : InsertPlan)
    → parse_insert stmt reg ≡ ok plan
    → IsTyped plan.schema.columns plan.values
unfolding parse_insert
parse_insert-IsTyped stmt reg plan h =
    let (p, _, h) = ok-want (consume_keyword stmt (codes "INSERT")) invalid_query _ plan h in
    let (p, _, h) = ok-want (consume_keyword p (codes "INTO")) invalid_query _ plan h in
    let ((table, p), _, h) = ok-want (parse_identifier p 256) invalid_query _ plan h in
    let (schema, _, h) = ok-want (find_table reg table) table_not_found _ plan h in
    let (p, _, h) = ok-bind (expect b'(' p) _ plan h in
    let ((cols, p), _, h) = ok-want (column_segment p) invalid_query _ plan h in
    let (p, _, h) = ok-want (consume_keyword p (codes "VALUES")) invalid_query _ plan h in
    let (p, _, h) = ok-bind (expect b'(' p) _ plan h in
    let ((vals, p), _, h) = ok-want (value_segment false p) invalid_query _ plan h in
    let (_, h) = ok-guard (is_empty (skip_ws p)) invalid_query _ plan h in
    let (col_items, _, h) = ok-want (split_csv_like_ident_list cols) invalid_query _ plan h in
    let (val_items, _, h) = ok-want (split_values_list vals) invalid_query _ plan h in
    insert_plan-IsTyped schema col_items val_items plan h
