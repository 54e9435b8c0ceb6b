-- ===== src/Jiun/Storage/Shown.antt =====
-- The text that execute_select_with_options is to print.
use jungle_week6_coding_sess.Prelude.{
  ℕ, ◌≡◌, refl, sym, ap, ◌∙◌, Bool, Bytes, List, [], ◌∷◌, ◌++◌, map, get_or, append_assoc,
}
use jungle_week6_coding_sess.Prelude.Spec.{concat, comma_line, at_positions}
use jungle_week6_coding_sess.Jiun.Types.{Column, SelectPlan}
use jungle_week6_coding_sess.Jiun.Cells.{line_feed}
use jungle_week6_coding_sess.Jiun.Storage.{
  pick, column_names, print_fields, if_interactive, color_bold, color_reset,
}

-- The lines that are meant: for each row, its values at the selected columns.
abbrev pub selected_lines : List ℕ → List (List Bytes) → Bytes
selected_lines selected rows = concat (map (λ row. comma_line (at_positions selected row)) rows)

-- The text that is meant: nothing for an empty table, and else the names and the rows.
unfoldable pub table_text : SelectPlan → Bool → List (List Bytes) → Bytes
table_text plan interactive [] = []
table_text plan interactive (row ∷ rows) =
    if_interactive interactive color_bold
    ++ (comma_line
          (at_positions plan.selected_idx (map (λ (c : Column). c.name) plan.schema.columns))
        ++ (if_interactive interactive color_reset
            ++ selected_lines plan.selected_idx (row ∷ rows)))

print_fields-comma_line : (fields : List Bytes) → print_fields fields ≡ comma_line fields
unfolding print_fields comma_line concat
print_fields-comma_line [] = refl
print_fields-comma_line (field ∷ []) = refl
print_fields-comma_line (field ∷ next ∷ fields) =
    ap (λ text. field ++ (b',' ∷ text))
      (print_fields-comma_line (next ∷ fields)
        ∙ sym (append_assoc next (concat (map (◌∷◌ b',') fields)) (line_feed ∷ [])))

pick-at_positions :
    (selected : List ℕ) (items : List Bytes) → pick selected items ≡ at_positions selected items
unfolding pick
pick-at_positions [] items = refl
pick-at_positions (i ∷ selected) items =
    ap (◌∷◌ (get_or items i [])) (pick-at_positions selected items)

pub column_names-map :
    (columns : List Column) → column_names columns ≡ map (λ (c : Column). c.name) columns
column_names-map [] = refl
column_names-map (c ∷ columns) = ap (◌∷◌ c.name) (column_names-map columns)

pub print_picked :
    (selected : List ℕ) (items : List Bytes)
    → print_fields (pick selected items) ≡ comma_line (at_positions selected items)
print_picked selected items =
    ap print_fields (pick-at_positions selected items)
    ∙ print_fields-comma_line (at_positions selected items)
