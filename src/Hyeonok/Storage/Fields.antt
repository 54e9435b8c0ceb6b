-- ===== src/Hyeonok/Storage/Fields.antt =====
-- A row of the file, written and parsed.
use jungle_week6_coding_sess.Prelude.{
  ℕ, arith, ◌≡◌, ◌⊎◌, inl, inr, refl, sym, ap, ◌∙◌, Bool, true, false, ◌||◌, Bytes, List, [], ◌∷◌,
  ◌++◌, append-nil, some, Bool-cases, ◌==◌, length, drop,
}
use jungle_week6_coding_sess.Libc.Text.{char_at}
use jungle_week6_coding_sess.Hyeonok.Storage.{
  tab, line_feed, escape, write_escaped_text, row_text, unescape, with_byte, parse_escaped_field,
  parse_fields, parse_storage_row,
}

-- The end of the text, or a byte that ends a field.
abbrev pub ends_field : Bytes → Bool
ends_field [] = true
ends_field (c ∷ _) = c == tab || c == line_feed

-- A byte is written behind a backslash that gives it back, or as it is.
escape-cases :
    (c : ℕ)
    → ((e : ℕ) × (escape c ≡ b'\\' ∷ e ∷ []) × (unescape e ≡ some c))
      ⊎ ((escape c ≡ c ∷ []) × ((c == b'\\') ≡ false) × ((c == tab || c == line_feed) ≡ false))
unfolding escape unescape
escape-cases c = elim (Bool-cases (c == b'\\')) [
  | inl e ↦ inl (b'\\', rw e refl, ground arith)
  | inr e ↦ elim (Bool-cases (c == tab)) [
    | inl t ↦ inl (b't', rw (e, t) refl, ground arith)
    | inr t ↦ elim (Bool-cases (c == line_feed)) [
      | inl l ↦ inl (b'n', rw (e, t, l) refl, ground arith)
      | inr l ↦ inr (rw (e, t, l) refl, e, rw (t, l) refl)
    ]
  ]
]

parse_escaped_field-end :
    (rest : Bytes) → ends_field rest ≡ true → parse_escaped_field rest ≡ some ([], rest)
unfolding parse_escaped_field
parse_escaped_field-end [] h = refl
parse_escaped_field-end (c ∷ []) h = rw (parse_escaped_field, h) refl
parse_escaped_field-end (c ∷ d ∷ rest) h = rw (parse_escaped_field, h) refl

parse_escaped_field-pair :
    (e c : ℕ) (rest : Bytes)
    → unescape e ≡ some c
    → parse_escaped_field (b'\\' ∷ e ∷ rest) ≡ with_byte c (parse_escaped_field rest)
unfolding parse_escaped_field
parse_escaped_field-pair e c rest h = rw (parse_escaped_field, h) refl

parse_escaped_field-plain :
    (c : ℕ) (rest : Bytes)
    → (c == b'\\') ≡ false
    → (c == tab || c == line_feed) ≡ false
    → parse_escaped_field (c ∷ rest) ≡ with_byte c (parse_escaped_field rest)
unfolding parse_escaped_field
parse_escaped_field-plain c [] h k = rw (parse_escaped_field, k, h) refl
parse_escaped_field-plain c (d ∷ rest) h k = rw (parse_escaped_field, k, h) refl

-- A value is read back up to the byte that ends its field.
pub parse_escaped_field-write_escaped_text :
    (text rest : Bytes)
    → ends_field rest ≡ true
    → parse_escaped_field (write_escaped_text text ++ rest) ≡ some (text, rest)
unfolding write_escaped_text
parse_escaped_field-write_escaped_text [] rest h = parse_escaped_field-end rest h
parse_escaped_field-write_escaped_text (c ∷ text) rest h =
    let later = ap (with_byte c) (parse_escaped_field-write_escaped_text text rest h) in
    elim (escape-cases c) [
      | inl (e, w, u) ↦
          rw w (parse_escaped_field-pair e c (write_escaped_text text ++ rest) u ∙ later)
      | inr (w, b, t) ↦
          rw w (parse_escaped_field-plain c (write_escaped_text text ++ rest) b t ∙ later)
    ]

parse_fields-row_text :
    (row : List Bytes) → parse_fields (length row) (row_text row) ≡ some (row, [])
unfolding parse_fields row_text drop char_at
parse_fields-row_text [] = refl
parse_fields-row_text (value ∷ []) =
    let field =
      ap parse_escaped_field (sym (append-nil (write_escaped_text value)))
      ∙ parse_escaped_field-write_escaped_text value [] refl in
    rw field refl
parse_fields-row_text (value ∷ next ∷ row) =
    rw
      (
        parse_escaped_field-write_escaped_text value (tab ∷ row_text (next ∷ row)) refl,
        parse_fields-row_text (next ∷ row),
      )
      refl

-- Every row, whatever bytes its values hold and whether they are empty, is read back from its line.
pub parse_storage_row-row_text :
    (row : List Bytes) → parse_storage_row (row_text row) (length row) ≡ some row
unfolding parse_storage_row char_at
parse_storage_row-row_text row = rw (parse_fields-row_text row) refl
