-- ===== src/Libc/Text/Decimal.antt =====
-- Numbers in decimal digits, printed and read.
use jungle_week6_coding_sess.Prelude.{
  ℕ, zero, suc, arith, ◌+◌, ◌-◌, ◌*◌, ◌/◌, ◌%◌, ◌^◌, ◌<◌, ◌≡◌, refl, ap, ◌∙◌, true, false, Bytes,
  [], ◌∷◌, ◌++◌, append_assoc, ltb, ltb→lt, Bool-cases, inl, inr,
}
use jungle_week6_coding_sess.Libc.Text.{is_digit, char_at, digits, decimal}
use jungle_week6_coding_sess.Libc.Text.Numbers.{read_digits}

is_digit-digit : (d : ℕ) → d < 10 → is_digit (48 + d) ≡ true
unfolding is_digit
is_digit-digit d h = ground (arith, h)

read_digits-digit :
    (n d : ℕ) (rest : Bytes)
    → d < 10
    → read_digits n ((48 + d) ∷ rest) ≡ read_digits (n * 10 + d) rest
unfolding read_digits
read_digits-digit n d rest h =
    let value : n * 10 + (48 + d - 48) ≡ n * 10 + d = omega arith in
    rw (is_digit-digit d h) (ap (λ m. read_digits m rest) value)

-- The digits stand for the number, if there are enough.
read_digits-digits :
    (fuel n : ℕ) (rest : Bytes)
    → n < 10 ^ fuel
    → read_digits 0 (digits fuel n ++ rest) ≡ read_digits n rest
unfolding digits
read_digits-digits zero n rest h = ap (λ m. read_digits m rest) (omega arith)
read_digits-digits (suc fuel) n rest h = elim (Bool-cases (ltb n 10)) [
  | inl e ↦
      rw e (read_digits-digit 0 n rest (ltb→lt n 10 e) ∙ ap (λ m. read_digits m rest) (omega arith))
  | inr e ↦
      let value : n / 10 * 10 + n % 10 ≡ n = omega arith in
      rw (e, append_assoc (digits fuel (n / 10)) ((48 + n % 10) ∷ []) rest)
        (read_digits-digits fuel (n / 10) ((48 + n % 10) ∷ rest) (omega (arith, h))
          ∙ read_digits-digit (n / 10) (n % 10) rest (omega arith)
          ∙ ap (λ m. read_digits m rest) value)
]

-- In front of a digit stands a digit.
is_digit-digits :
    (fuel n : ℕ) (rest : Bytes)
    → is_digit (char_at rest) ≡ true
    → is_digit (char_at (digits fuel n ++ rest)) ≡ true
unfolding digits char_at
is_digit-digits zero n rest h = h
is_digit-digits (suc fuel) n rest h = elim (Bool-cases (ltb n 10)) [
  | inl e ↦ rw e (is_digit-digit n (ltb→lt n 10 e))
  | inr e ↦
      rw (e, append_assoc (digits fuel (n / 10)) ((48 + n % 10) ∷ []) rest)
        (is_digit-digits fuel (n / 10) ((48 + n % 10) ∷ rest)
          (is_digit-digit (n % 10) (omega arith)))
]

pub is_digit-decimal : (n : ℕ) (rest : Bytes) → is_digit (char_at (decimal n ++ rest)) ≡ true
unfolding decimal digits char_at
is_digit-decimal n rest = elim (Bool-cases (ltb n 10)) [
  | inl e ↦ rw e (is_digit-digit n (ltb→lt n 10 e))
  | inr e ↦
      rw (e, append_assoc (digits 19 (n / 10)) ((48 + n % 10) ∷ []) rest)
        (is_digit-digits 19 (n / 10) ((48 + n % 10) ∷ rest) (is_digit-digit (n % 10) (omega arith)))
]

-- In front of a byte that is no digit, the number is read.
pub read_digits-decimal :
    (n c : ℕ) (rest : Bytes)
    → n < 10 ^ 20
    → is_digit c ≡ false
    → read_digits 0 (decimal n ++ (c ∷ rest)) ≡ (n, c ∷ rest)
unfolding decimal read_digits
read_digits-decimal n c rest h k = read_digits-digits 20 n (c ∷ rest) h ∙ rw (read_digits, k) refl
