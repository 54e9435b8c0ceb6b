-- ===== src/Libc/Text/Numbers.antt =====
-- `strtol` in base 10, where long has 64 bits.
use jungle_week6_coding_sess.Prelude.{
  ℕ, ◌+◌, ◌-◌, ◌*◌, ◌^◌, ◌||◌, Bytes, [], ◌∷◌, ◌==◌, ltb, if◌then◌else◌, drop,
}
use jungle_week6_coding_sess.Libc.Text.{is_space, is_digit, char_at}

unfoldable pub skip_space : Bytes → Bytes
skip_space [] = []
skip_space (c ∷ rest) = let later = skip_space rest in if is_space c then later else c ∷ rest

-- The value of the digits at the front, behind those that gave `n`, and the rest.
unfoldable pub read_digits : ℕ → Bytes → ℕ × Bytes
read_digits n [] = (n, [])
read_digits n (c ∷ rest) =
    let more = read_digits (n * 10 + (c - b'0')) rest in if is_digit c then more else (n, c ∷ rest)

-- No number is above the limit.
unfoldable pub at_most : ℕ → ℕ → ℕ
at_most limit n = if ltb limit n then limit else n

-- The number plus 2^63, which keeps the order, and the text behind it. It stops at the limits of
-- long. Without a digit the number is 0 and the text is the whole one.
unfoldable pub strtol : Bytes → ℕ × Bytes
strtol text =
    let start = skip_space text in
    let sign = char_at start in
    let digits = if sign == b'-' || sign == b'+' then drop 1 start else start in
    let (magnitude, rest) = read_digits 0 digits in
    let number =
      if sign == b'-'
      then 2 ^ 63 - at_most (2 ^ 63) magnitude
      else 2 ^ 63 + at_most (2 ^ 63 - 1) magnitude in
    if is_digit (char_at digits) then (number, rest) else (2 ^ 63, text)
