-- ===== src/Jihyun/Storage/Rows.antt =====
-- serialize_row and deserialize_row are inverse.
use jungle_week6_coding_sess.Prelude.{
  ℕ, suc, ◌+◌, ◌%◌, ◌<◌, ◌≤◌, ◌≡◌, refl, ap, ◌∙◌, Bytes, [], ◌∷◌, ◌++◌, append_assoc, append-nil,
  le→not_ltb, arith, length, length-append, take, take_all, take-append, drop-append,
}
use jungle_week6_coding_sess.Prelude.Words.{
  u32_mod, u32_bytes, length-u32_bytes, read_u32-u32_bytes,
}
use jungle_week6_coding_sess.Jihyun.Action.{done}
use jungle_week6_coding_sess.Jihyun.Storage.{
  RowData, serialize_fields, serialize_row, total_length, deserialize_fields, deserialize_row,
}

-- The record of a row that has a value for each column.
abbrev pub row_record : RowData → Bytes
row_record row = (serialize_row (length row) row).0

-- The row is small enough for the lengths in its record, which are of type uint32_t.
abbrev pub IsSmall : RowData → Type 0
IsSmall row = total_length (length row) row < u32_mod

length-serialize_fields :
    (row : RowData)
    → IsSmall row
    → length (serialize_fields (length row) row) + 4 ≡ total_length (length row) row
unfolding serialize_fields total_length
length-serialize_fields [] h = omega arith
length-serialize_fields (value ∷ row) h =
    let n = length value % u32_mod in
    omega (
      arith,
      length-append (u32_bytes n) (take n value ++ serialize_fields (length row) row),
      length-append (take n value) (serialize_fields (length row) row),
      length-u32_bytes n,
      ap length (take_all n value (omega arith)),
      length-serialize_fields row (omega arith),
    )

count-le-total_length : (row : RowData) → length row ≤ total_length (length row) row
unfolding total_length
count-le-total_length [] = omega arith
count-le-total_length (value ∷ row) = omega (arith, count-le-total_length row)

-- The length that serialize_row returns is the length of its buffer.
pub length-row_record :
    (row : RowData) → IsSmall row → length (row_record row) ≡ total_length (length row) row
unfolding serialize_row
length-row_record row h =
    let n = length row % u32_mod in
    omega (
      arith,
      length-append (u32_bytes n) (serialize_fields (length row) row),
      length-u32_bytes n,
      length-serialize_fields row h,
    )

pub serialize_row-IsSmall :
    (row : RowData)
    → IsSmall row
    → serialize_row (length row) row ≡ (row_record row, length (row_record row))
unfolding serialize_row
serialize_row-IsSmall row h =
    let fits : total_length (length row) row % u32_mod ≡ length (row_record row) =
      omega (arith, length-row_record row h) in
    ap (λ n. (row_record row, n)) fits

-- One round of the loop, at a field that is there in full.
deserialize_fields-cons :
    (count : ℕ) (value rest : Bytes) (values : RowData)
    → length value < u32_mod
    → deserialize_fields (suc count) (u32_bytes (length value) ++ (value ++ rest)) values
      ≡ deserialize_fields count rest (values ++ value ∷ [])
unfolding deserialize_fields
deserialize_fields-cons count value rest values h =
    let n = length value in
    rw (
      read_u32-u32_bytes n (value ++ rest) h,
      drop-append 4 (u32_bytes n) (value ++ rest) (length-u32_bytes n),
      take-append n value rest refl,
      drop-append n value rest refl,
      le→not_ltb (length (u32_bytes n ++ (value ++ rest))) 4
          (omega (arith, length-append (u32_bytes n) (value ++ rest), length-u32_bytes n)),
      le→not_ltb (length (value ++ rest)) n (omega (arith, length-append value rest)),
    )

deserialize_fields-serialize_fields :
    (row values : RowData)
    → IsSmall row
    → deserialize_fields (length row) (serialize_fields (length row) row) values
      ≡ done (values ++ row)
unfolding serialize_fields total_length
deserialize_fields-serialize_fields [] values h = unfold deserialize_fields in rw append-nil
deserialize_fields-serialize_fields (value ∷ row) values h =
    let fits : length value % u32_mod ≡ length value = omega arith in
    rw (fits, take_all (length value) value (omega arith))
      (deserialize_fields-cons (length row) value _ values (omega arith)
        ∙ deserialize_fields-serialize_fields row (values ++ value ∷ []) (omega arith)
        ∙ ap done (append_assoc values (value ∷ []) row))

-- Reading back the record of a row gives the row, if the lengths in it fit in uint32_t.
pub deserialize_row-serialize_row :
    (row : RowData)
    → IsSmall row
    → deserialize_row (row_record row) (length (row_record row)) ≡ done row
unfolding deserialize_row serialize_row
deserialize_row-serialize_row row h =
    let n = length row in
    let fields = serialize_fields n row in
    let fits : n % u32_mod ≡ n = omega (arith, count-le-total_length row) in
    rw
      (
        fits,
        le→not_ltb (length (u32_bytes n ++ fields)) 4
            (omega (arith, length-append (u32_bytes n) fields, length-u32_bytes n)),
        read_u32-u32_bytes n fields (omega (arith, count-le-total_length row)),
        drop-append 4 (u32_bytes n) fields (length-u32_bytes n),
      )
      (deserialize_fields-serialize_fields row [] h)
