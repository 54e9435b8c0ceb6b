-- ===== src/Dragon/Tables/Where.antt =====
-- WHERE: the rows that a SELECT keeps and those that a DELETE keeps.
use mathlib.Core.List.{Permᴰ}
use mathlib.Core.List.Permᴰ
use jungle_week6_coding_sess.Prelude.{
  ℕ, arith, ◌≡◌, ◌≤◌, refl, true, false, Bytes, List, [], ◌∷◌, ◌++◌, length, All, Bool-cases, inl,
  inr,
}
use jungle_week6_coding_sess.Dragon.Types.{WhereCondition}
use jungle_week6_coding_sess.Dragon.Values.{row_matches_where}
use jungle_week6_coding_sess.Dragon.Tables.{filter_rows_in_place, delete_rows_in_place}

module _ (i : ℕ) (condition : WhereCondition) where
  filter_rows_in_place-matches :
      (rows : List (List Bytes))
      → All
          (λ row. row_matches_where i condition row ≡ true)
          (filter_rows_in_place i condition rows)
  unfolding filter_rows_in_place
  filter_rows_in_place-matches [] = tt
  filter_rows_in_place-matches (row ∷ rows) =
      elim (Bool-cases (row_matches_where i condition row)) [
        | inl e ↦ rw e (e, filter_rows_in_place-matches rows)
        | inr e ↦ rw e (filter_rows_in_place-matches rows)
      ]

  delete_rows_in_place-matches :
      (rows : List (List Bytes))
      → All
          (λ row. row_matches_where i condition row ≡ false)
          (delete_rows_in_place i condition rows)
  unfolding delete_rows_in_place
  delete_rows_in_place-matches [] = tt
  delete_rows_in_place-matches (row ∷ rows) =
      elim (Bool-cases (row_matches_where i condition row)) [
        | inl e ↦ rw e (delete_rows_in_place-matches rows)
        | inr e ↦ rw e (e, delete_rows_in_place-matches rows)
      ]

  Permᴰ-filter-delete :
      (rows : List (List Bytes))
      → Permᴰ (filter_rows_in_place i condition rows ++ delete_rows_in_place i condition rows) rows
  unfolding filter_rows_in_place delete_rows_in_place
  Permᴰ-filter-delete [] = Permᴰ.nil
  Permᴰ-filter-delete (row ∷ rows) =
      let rest = Permᴰ-filter-delete rows in
      elim (Bool-cases (row_matches_where i condition row)) [
        | inl e ↦ rw e (Permᴰ.cons refl rest)
        | inr e ↦ rw e (
            Permᴰ.trans
              (Permᴰ.middle row (filter_rows_in_place i condition rows)
                (delete_rows_in_place i condition rows))
              (Permᴰ.cons refl rest))
      ]

  -- The rows that a SELECT with this condition keeps all match it, those that a DELETE with it
  -- keeps all do not, and both together are the rows, each as often as before.
  pub filter_rows_in_place-delete_rows_in_place :
      (rows : List (List Bytes))
      → All
          (λ row. row_matches_where i condition row ≡ true)
          (filter_rows_in_place i condition rows)
        × All
            (λ row. row_matches_where i condition row ≡ false)
            (delete_rows_in_place i condition rows)
        × Permᴰ
            (filter_rows_in_place i condition rows ++ delete_rows_in_place i condition rows)
            rows
  filter_rows_in_place-delete_rows_in_place rows = (
    filter_rows_in_place-matches rows,
    delete_rows_in_place-matches rows,
    Permᴰ-filter-delete rows,
  )

  pub All-delete_rows_in_place :
      (P : List Bytes → Type 0) (rows : List (List Bytes))
      → All P rows
      → All P (delete_rows_in_place i condition rows)
  unfolding delete_rows_in_place
  All-delete_rows_in_place P [] h = tt
  All-delete_rows_in_place P (row ∷ rows) h =
      elim (Bool-cases (row_matches_where i condition row)) [
        | inl e ↦ rw e (All-delete_rows_in_place P rows h.1)
        | inr e ↦ rw e (h.0, All-delete_rows_in_place P rows h.1)
      ]

  pub length-delete_rows_in_place :
      (rows : List (List Bytes)) → length (delete_rows_in_place i condition rows) ≤ length rows
  unfolding delete_rows_in_place
  length-delete_rows_in_place [] = omega arith
  length-delete_rows_in_place (row ∷ rows) = elim (Bool-cases (row_matches_where i condition row)) [
    | inl e ↦ rw e (omega (arith, length-delete_rows_in_place rows))
    | inr e ↦ rw e (omega (arith, length-delete_rows_in_place rows))
  ]
