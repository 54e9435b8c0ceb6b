-- ===== src/Dragon/Rows/RoundTrip.antt =====
-- A row, written and parsed.
use jungle_week6_coding_sess.Prelude.{
  ℕ, arith, ◌≡◌, ◌<◌, ◌%◌, ◌^◌, refl, true, Bytes, List, [], ◌∷◌, ◌++◌, append_assoc, some, ltb,
  lt→ltb, leb, le→leb, length, length-append, drop, take-append, drop-append, All,
}
use jungle_week6_coding_sess.Libc.Text.{is_digit, char_at, decimal}
use jungle_week6_coding_sess.Libc.Text.Decimal.{is_digit-decimal, read_digits-decimal}
use jungle_week6_coding_sess.Dragon.Types.{max_value_len}
use jungle_week6_coding_sess.Dragon.Rows.{
  line_feed, encode_values, write_encoded_row, parse_next_length, parse_values, is_line_end,
  parse_encoded_row,
}

-- A value fits in its buffer.
abbrev pub IsValue : Bytes → Type 0
IsValue value = length value < max_value_len

parse_next_length-decimal :
    (n : ℕ) (rest : Bytes)
    → n < 256
    → parse_next_length (decimal n ++ (b':' ∷ rest)) ≡ some (n, rest)
unfolding parse_next_length drop char_at is_digit
parse_next_length-decimal n rest h =
    let digit = is_digit-decimal n (b':' ∷ rest) in
    let read = read_digits-decimal n b':' rest (omega arith) refl in
    let small : n % 2 ^ 64 ≡ n = omega arith in rw (parse_next_length, digit, read, small) refl

parse_values-encode_values :
    (values : List Bytes) (rest : Bytes)
    → All IsValue values
    → parse_values (length values) (encode_values values ++ rest) ≡ some (values, rest)
unfolding parse_values encode_values
parse_values-encode_values [] rest h = refl
parse_values-encode_values (value ∷ values) rest h =
    let behind = encode_values values ++ rest in
    let fits : ltb (length value) 256 ≡ true = lt→ltb _ _ h.0 in
    let there : leb (length value) (length (value ++ behind)) ≡ true =
      le→leb _ _ (omega (arith, length-append value behind)) in
    rw
      (
        append_assoc (decimal (length value)) (b':' ∷ value ++ encode_values values) rest,
        append_assoc value (encode_values values) rest,
        parse_next_length-decimal (length value) (value ++ behind) h.0,
        fits,
        there,
        take-append (length value) value behind refl,
        drop-append (length value) value behind refl,
        parse_values-encode_values values rest h.1,
      )
      refl

-- Every row whose values fit in their buffers is read back from its line, whatever bytes they hold.
pub parse_encoded_row-write_encoded_row :
    (values : List Bytes)
    → All IsValue values
    → parse_encoded_row (write_encoded_row values) (length values) ≡ some values
unfolding parse_encoded_row write_encoded_row is_line_end
parse_encoded_row-write_encoded_row values h =
    rw (parse_values-encode_values values (line_feed ∷ []) h) refl
