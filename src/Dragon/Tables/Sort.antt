-- ===== src/Dragon/Tables/Sort.antt =====
-- ORDER BY: the bubble sort.
use mathlib.Core.List.{Permᴰ}
use mathlib.Core.List.Permᴰ
use jungle_week6_coding_sess.Prelude.{
  ℕ, zero, suc, arith, ◌≡◌, ◌⊎◌, ◌-◌, ◌≤◌, refl, sym, ◌∙◌, true, false, Bytes, List, [], ◌∷◌,
  length, drop, drop_all, get_or, All, ltb, ltb→lt, not_ltb→le, Bool-cases, inl, inr,
}
use jungle_week6_coding_sess.Libc.Text.Numbers.{strtol}
use jungle_week6_coding_sess.Dragon.Types.{OrderDirection, order_asc, order_desc}
use jungle_week6_coding_sess.Dragon.Values.{
  negative, zero_sign, positive, is_empty, compare_numbers, compare_values,
}
use jungle_week6_coding_sess.Dragon.Tables.{should_swap, sort_pass, sort_passes, sort_rows_in_place}

abbrev Row : Type 0
Row = List Bytes

-- Each row stands in an order to all behind it.
abbrev pub Ordered : (Row → Row → Type 0) → List Row → Type 0
Ordered le [] = Unit
Ordered le (row ∷ rows) = All (le row) rows × Ordered le rows

-- An order that the comparison of the sort decides on some rows.
record Decides (column_index : ℕ) (direction : OrderDirection) (IsKeyed : Row → Type 0)
    (le : Row → Row → Type 0) : Type 0 where
  le_trans : (a b c : Row) → le a b → le b c → le a c
  swapped :
      (a b : Row) → IsKeyed a → IsKeyed b → should_swap column_index direction a b ≡ true → le b a
  kept :
      (a b : Row) → IsKeyed a → IsKeyed b → should_swap column_index direction a b ≡ false → le a b

module _ (column_index : ℕ) (direction : OrderDirection) where
  All-sort_pass :
      (P : Row → Type 0) (pairs : ℕ) (rows : List Row)
      → All P rows
      → All P (sort_pass column_index direction pairs rows)
  unfolding sort_pass
  All-sort_pass P zero rows h = h
  All-sort_pass P (suc pairs) [] h = h
  All-sort_pass P (suc pairs) (row ∷ []) h = h
  All-sort_pass P (suc pairs) (row ∷ next ∷ rows) h =
      let swapped = All-sort_pass P pairs (row ∷ rows) (h.0, h.1.1) in
      let same = All-sort_pass P pairs (next ∷ rows) h.1 in
      elim (Bool-cases (should_swap column_index direction row next)) [
        | inl e ↦ rw e (h.1.0, swapped)
        | inr e ↦ rw e (h.0, same)
      ]

  Permᴰ-sort_pass :
      (pairs : ℕ) (rows : List Row) → Permᴰ rows (sort_pass column_index direction pairs rows)
  unfolding sort_pass
  Permᴰ-sort_pass zero rows = Permᴰ.refl rows
  Permᴰ-sort_pass (suc pairs) [] = Permᴰ.nil
  Permᴰ-sort_pass (suc pairs) (row ∷ []) = Permᴰ.refl (row ∷ [])
  Permᴰ-sort_pass (suc pairs) (row ∷ next ∷ rows) =
      let swapped = Permᴰ-sort_pass pairs (row ∷ rows) in
      let same = Permᴰ-sort_pass pairs (next ∷ rows) in
      elim (Bool-cases (should_swap column_index direction row next)) [
        | inl e ↦ rw e (Permᴰ.trans (Permᴰ.swap refl refl) (Permᴰ.cons refl swapped))
        | inr e ↦ rw e (Permᴰ.cons refl same)
      ]

  Permᴰ-sort_passes :
      (pairs : ℕ) (rows : List Row) → Permᴰ rows (sort_passes column_index direction pairs rows)
  unfolding sort_passes
  Permᴰ-sort_passes zero rows = Permᴰ.refl rows
  Permᴰ-sort_passes (suc pairs) rows =
      Permᴰ.trans (Permᴰ-sort_pass (suc pairs) rows)
        (Permᴰ-sort_passes pairs (sort_pass column_index direction (suc pairs) rows))

module _ {column_index : ℕ} {direction : OrderDirection} {IsKeyed : Row → Type 0}
    {le : Row → Row → Type 0} (d : Decides column_index direction IsKeyed le) where
  -- The rows from the `count`-th on are ordered, and all before them stand in the order to them.
  abbrev OrderedFrom : ℕ → List Row → Type 0
  OrderedFrom zero rows = Ordered le rows
  OrderedFrom (suc count) [] = Unit
  OrderedFrom (suc count) (row ∷ rows) = All (le row) (drop count rows) × OrderedFrom count rows

  OrderedFrom-nil : (count : ℕ) → OrderedFrom count []
  OrderedFrom-nil zero = tt
  OrderedFrom-nil (suc count) = tt

  OrderedFrom-all : (count : ℕ) (rows : List Row) → length rows ≤ count → OrderedFrom count rows
  OrderedFrom-all count [] h = OrderedFrom-nil count
  OrderedFrom-all zero (row ∷ rows) h = absurd (omega arith)
  OrderedFrom-all (suc count) (row ∷ rows) h =
      (rw (drop_all count rows (omega arith)) tt, OrderedFrom-all count rows (omega arith))

  All-drop-nil : (P : Row → Type 0) (count : ℕ) → All P (drop count [])
  All-drop-nil P count = rw (drop_all {A = Row} count [] (omega arith)) tt

  -- What stands in the order to the first row and to all behind the pass stands in it to the row
  -- that the pass carries there.
  All-le-sort_pass :
      (low : Row) (pairs : ℕ) (row : Row) (rows : List Row)
      → All IsKeyed (row ∷ rows)
      → le low row
      → All (le low) (drop pairs rows)
      → All (le low) (drop pairs (sort_pass column_index direction pairs (row ∷ rows)))
  unfolding sort_pass drop
  All-le-sort_pass low zero row rows k h all = (h, all)
  All-le-sort_pass low (suc pairs) row [] k h all = All-drop-nil (le low) pairs
  All-le-sort_pass low (suc pairs) row (next ∷ rows) k h all =
      elim (Bool-cases (should_swap column_index direction row next)) [
        | inl e ↦ rw e (All-le-sort_pass low pairs row rows (k.0, k.1.1) h all)
        | inr e ↦ rw e (
            All-le-sort_pass low pairs next rows k.1
              (d.le_trans low row next h (d.kept row next k.0 k.1.0 e)) all)
      ]

  OrderedFrom-sort_pass :
      (pairs : ℕ) (rows : List Row)
      → All IsKeyed rows
      → OrderedFrom (suc pairs) rows
      → OrderedFrom pairs (sort_pass column_index direction pairs rows)
  unfolding sort_pass drop
  OrderedFrom-sort_pass zero [] k h = tt
  OrderedFrom-sort_pass zero (row ∷ rows) k h = h
  OrderedFrom-sort_pass (suc pairs) [] k h = tt
  OrderedFrom-sort_pass (suc pairs) (row ∷ []) k h =
      (All-drop-nil (le row) pairs, OrderedFrom-nil pairs)
  OrderedFrom-sort_pass (suc pairs) (row ∷ next ∷ rows) k h =
      elim (Bool-cases (should_swap column_index direction row next)) [
        | inl e ↦ rw e (
          All-le-sort_pass next pairs row rows (k.0, k.1.1) (d.swapped row next k.0 k.1.0 e) h.1.0,
          OrderedFrom-sort_pass pairs (row ∷ rows) (k.0, k.1.1) (h.0, h.1.1),
        )
        | inr e ↦ rw e (
          All-le-sort_pass row pairs next rows k.1 (d.kept row next k.0 k.1.0 e) h.0,
          OrderedFrom-sort_pass pairs (next ∷ rows) k.1 h.1,
        )
      ]

  Ordered-sort_passes :
      (pairs : ℕ) (rows : List Row)
      → All IsKeyed rows
      → OrderedFrom (suc pairs) rows
      → Ordered le (sort_passes column_index direction pairs rows)
  unfolding sort_passes drop
  Ordered-sort_passes zero [] k h = tt
  Ordered-sort_passes zero (row ∷ rows) k h = h
  Ordered-sort_passes (suc pairs) rows k h =
      Ordered-sort_passes pairs (sort_pass column_index direction (suc pairs) rows)
        (All-sort_pass column_index direction IsKeyed (suc pairs) rows k)
        (OrderedFrom-sort_pass (suc pairs) rows k h)

-- The number of the value in a column, plus 2^63.
abbrev pub number : ℕ → Row → ℕ
number column_index row = (strtol (get_or row column_index [])).0

-- The value in a column is an integer: nothing stands behind its digits.
abbrev pub IsInteger : ℕ → Row → Type 0
IsInteger column_index row = is_empty (strtol (get_or row column_index [])).1 ≡ true

abbrev pub InOrder : ℕ → OrderDirection → Row → Row → Type 0
InOrder column_index order_asc row next = number column_index row ≤ number column_index next
InOrder column_index order_desc row next = number column_index next ≤ number column_index row

compare_values-IsInteger :
    (left right : Bytes)
    → is_empty (strtol left).1 ≡ true
    → is_empty (strtol right).1 ≡ true
    → compare_values left right ≡ compare_numbers (strtol left).0 (strtol right).0
unfolding compare_values
compare_values-IsInteger left right h k = rw (compare_values, h, k) refl

-- The comparison of two numbers, by the two tests that it makes.
compare_numbers-cases :
    (left right : ℕ)
    → ((compare_numbers left right ≡ negative) × (ltb left right ≡ true) × (ltb right left ≡ false))
      ⊎ ((compare_numbers left right ≡ positive)
          × (ltb left right ≡ false)
          × (ltb right left ≡ true))
      ⊎ ((compare_numbers left right ≡ zero_sign)
          × (ltb left right ≡ false)
          × (ltb right left ≡ false))
unfolding compare_numbers
compare_numbers-cases left right = elim (Bool-cases (ltb left right)) [
  | inl e ↦ inl (rw e refl, e, ground arith)
  | inr e ↦ elim (Bool-cases (ltb right left)) [
    | inl e' ↦ inr (inl (rw (e, e') refl, e, e'))
    | inr e' ↦ inr (inr (rw (e, e') refl, e, e'))
  ]
]

module _ (i : ℕ) (row next : Row) (h : IsInteger i row) (k : IsInteger i next) where
  abbrev compared :
      compare_values (get_or row i []) (get_or next i [])
      ≡ compare_numbers (number i row) (number i next)
  compared = compare_values-IsInteger (get_or row i []) (get_or next i []) h k

  should_swap-IsInteger_asc : should_swap i order_asc row next ≡ ltb (number i next) (number i row)
  unfolding should_swap
  should_swap-IsInteger_asc = elim (compare_numbers-cases (number i row) (number i next)) [
    | inl (e, lt, gt) ↦ rw (should_swap, compared ∙ e, gt) refl
    | inr (inl (e, lt, gt)) ↦ rw (should_swap, compared ∙ e, gt) refl
    | inr (inr (e, lt, gt)) ↦ rw (should_swap, compared ∙ e, gt) refl
  ]

  should_swap-IsInteger_desc :
      should_swap i order_desc row next ≡ ltb (number i row) (number i next)
  unfolding should_swap
  should_swap-IsInteger_desc = elim (compare_numbers-cases (number i row) (number i next)) [
    | inl (e, lt, gt) ↦ rw (should_swap, compared ∙ e, lt) refl
    | inr (inl (e, lt, gt)) ↦ rw (should_swap, compared ∙ e, lt) refl
    | inr (inr (e, lt, gt)) ↦ rw (should_swap, compared ∙ e, lt) refl
  ]

IsInteger-Decides :
    (i : ℕ) (direction : OrderDirection) → Decides i direction (IsInteger i) (InOrder i direction)
IsInteger-Decides i order_asc = record {
  le_trans = λ a b c h k. omega (arith, h, k);
  swapped = λ a b h k e. omega (arith, ltb→lt _ _ (sym (should_swap-IsInteger_asc i a b h k) ∙ e));
  kept = λ a b h k e. not_ltb→le _ _ (sym (should_swap-IsInteger_asc i a b h k) ∙ e);
}
IsInteger-Decides i order_desc = record {
  le_trans = λ a b c h k. omega (arith, h, k);
  swapped = λ a b h k e. omega (arith, ltb→lt _ _ (sym (should_swap-IsInteger_desc i a b h k) ∙ e));
  kept = λ a b h k e. not_ltb→le _ _ (sym (should_swap-IsInteger_desc i a b h k) ∙ e);
}

-- The sort of rows whose values in the column are integers gives the same rows, each as often as
-- before, with every row in the order of the direction to all rows behind it.
pub sort_rows_in_place-Ordered :
    (column_index : ℕ) (direction : OrderDirection) (rows : List Row)
    → All (IsInteger column_index) rows
    → Permᴰ rows (sort_rows_in_place column_index direction rows)
      × Ordered (InOrder column_index direction) (sort_rows_in_place column_index direction rows)
unfolding sort_rows_in_place
sort_rows_in_place-Ordered column_index direction rows h =
    let d = IsInteger-Decides column_index direction in
    (
      Permᴰ-sort_passes column_index direction (length rows - 1) rows,
      Ordered-sort_passes d (length rows - 1) rows h
          (OrderedFrom-all d (suc (length rows - 1)) rows (omega arith)),
    )
