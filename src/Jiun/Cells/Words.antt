-- ===== src/Jiun/Cells/Words.antt =====
-- The line of a row, cut at its tabs.
use jungle_week6_coding_sess.Prelude.{
  ℕ, ◌≤◌, ◌≡◌, inl, inr, refl, sym, ap, ◌∙◌, false, Bytes, List, [], ◌∷◌, ◌++◌, append-nil,
  append_assoc, map, ◌==◌, if◌then◌else◌, length, length-map, take, take_all, arith, All,
  Bool-cases,
}
use jungle_week6_coding_sess.Libc.Text.{tokens, tokens_from}
use jungle_week6_coding_sess.Jiun.Text.{is_empty}
use jungle_week6_coding_sess.Jiun.Cells.{tab, decode_cell, split_tab_line, encode_row}
use jungle_week6_coding_sess.Jiun.Cells.RoundTrip.{
  escaped, IsShort, encode_cell-escaped, decode_cell-encode_cell, IsInCell, escaped-IsInCell,
}

-- The values of a row that are not empty.
unfoldable pub shown : List Bytes → List Bytes
shown [] = []
shown (value ∷ values) = if is_empty value then shown values else value ∷ shown values

tokens_from-cell :
    (word cell rest : Bytes)
    → All IsInCell cell
    → tokens_from tab word (cell ++ rest) ≡ tokens_from tab (word ++ cell) rest
unfolding tokens_from
tokens_from-cell word [] rest h = rw append-nil
tokens_from-cell word (c ∷ cell) rest h =
    let other : (c == tab) ≡ false = ground (arith, h.0.no_tab) in
    rw (other, ← append_assoc word (c ∷ []) cell) (tokens_from-cell (word ++ c ∷ []) cell rest h.1)

-- A word at the end of the text, and one before a tab.
abbrev pub word_before : Bytes → List Bytes → List Bytes
word_before word words = if is_empty word then words else word ∷ words

is_empty-length : (word : Bytes) → (length word == 0) ≡ is_empty word
is_empty-length [] = refl
is_empty-length (c ∷ word) = ground arith

tokens-cell_end : (cell : Bytes) → All IsInCell cell → tokens tab cell ≡ word_before cell []
unfolding tokens tokens_from
tokens-cell_end cell h =
    ap (tokens_from tab []) (sym (append-nil cell))
    ∙ tokens_from-cell [] cell [] h
    ∙ ap (λ b. if b then [] else cell ∷ []) (is_empty-length cell)

tokens-cell :
    (cell rest : Bytes)
    → All IsInCell cell
    → tokens tab (cell ++ (tab ∷ rest)) ≡ word_before cell (tokens tab rest)
unfolding tokens tokens_from
tokens-cell cell rest h =
    tokens_from-cell [] cell (tab ∷ rest) h
    ∙ ap (λ b. if b then tokens_from tab [] rest else cell ∷ tokens_from tab [] rest)
        (is_empty-length cell)

escaped-is_empty : (value : Bytes) → is_empty (escaped value) ≡ is_empty value
unfolding escaped
escaped-is_empty [] = refl
escaped-is_empty (c ∷ value) = ground arith

word_before-escaped :
    (value : Bytes) (values : List Bytes)
    → word_before (escaped value) (map escaped (shown values))
      ≡ map escaped (shown (value ∷ values))
unfolding shown
word_before-escaped value values = elim (Bool-cases (is_empty value)) [
  | inl e ↦ rw (escaped-is_empty value, e)
  | inr e ↦ rw (escaped-is_empty value, e)
]

-- The words of the line are the cells of the values that are not empty.
tokens-encode_row :
    (values : List Bytes)
    → All IsShort values
    → tokens tab (encode_row values) ≡ map escaped (shown values)
unfolding encode_row escaped shown
tokens-encode_row [] h = unfold tokens tokens_from shown in refl
tokens-encode_row (value ∷ []) h =
    ap (tokens tab) (encode_cell-escaped value h.0)
    ∙ tokens-cell_end (escaped value) (escaped-IsInCell value)
    ∙ word_before-escaped value []
tokens-encode_row (value ∷ next ∷ values) h =
    ap (λ cell. tokens tab (cell ++ (tab ∷ encode_row (next ∷ values))))
      (encode_cell-escaped value h.0)
    ∙ tokens-cell (escaped value) (encode_row (next ∷ values)) (escaped-IsInCell value)
    ∙ ap (word_before (escaped value)) (tokens-encode_row (next ∷ values) h.1)
    ∙ word_before-escaped value (next ∷ values)

shown-IsShort : (values : List Bytes) → All IsShort values → All IsShort (shown values)
unfolding shown
shown-IsShort [] h = tt
shown-IsShort (value ∷ values) h = elim (Bool-cases (is_empty value)) [
  | inl e ↦ rw e (shown-IsShort values h.1)
  | inr e ↦ rw e (h.0, shown-IsShort values h.1)
]

length-shown : (values : List Bytes) → length (shown values) ≤ length values
unfolding shown
length-shown [] = omega arith
length-shown (value ∷ values) = ground (arith, length-shown values)

map-decode_cell :
    (values : List Bytes)
    → All IsShort values
    → map (λ tok. decode_cell tok 4096) (map escaped values) ≡ values
map-decode_cell [] h = refl
map-decode_cell (value ∷ values) h = λ i.
    (ap (λ cell. decode_cell cell 4096) (sym (encode_cell-escaped value h.0))
        ∙ decode_cell-encode_cell value h.0)
      i
    ∷ map-decode_cell values h.1 i

-- Cutting the line of a row gives back its values, in order, but for the empty ones, which are
-- lost: strtok_r takes several tabs for one.
pub split_tab_line-encode_row :
    (values : List Bytes) (max_fields : ℕ)
    → All IsShort values
    → length values ≤ max_fields
    → split_tab_line (encode_row values) max_fields ≡ shown values
unfolding split_tab_line
split_tab_line-encode_row values max_fields h fits =
    ap (λ words. map (λ tok. decode_cell tok 4096) (take max_fields words))
      (tokens-encode_row values h)
    ∙ ap (map (λ tok. decode_cell tok 4096)) (
        take_all max_fields (map escaped (shown values))
          (omega (arith, length-map escaped (shown values), length-shown values)))
    ∙ map-decode_cell (shown values) (shown-IsShort values h)
