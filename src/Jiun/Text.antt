-- ===== src/Jiun/Text.antt =====
-- shared/text.c. A parser that moves a `const char **` returns the rest of the text.
use jungle_week6_coding_sess.Prelude.{
  ℕ, zero, suc, ◌-◌, Bool, true, false, not, ◌&&◌, ◌||◌, Option, none, some, Bytes, [], ◌∷◌, ◌==◌,
  if◌then◌else◌, length, take, drop,
}
use jungle_week6_coding_sess.Libc.Text.{is_space, is_digit, is_alpha, is_alnum, to_lower, char_at}

unfoldable pub ci_equal : Bytes → Bytes → Bool
ci_equal [] [] = true
ci_equal [] (b ∷ bs) = false
ci_equal (a ∷ as') [] = false
ci_equal (a ∷ as') (b ∷ bs) =
    let rest = ci_equal as' bs in if not (to_lower a == to_lower b) then false else rest

-- `n` bytes of both; the loop ends at the first difference, and so at the NUL of the shorter one.
unfoldable pub ci_n_equal : Bytes → Bytes → ℕ → Bool
ci_n_equal a b zero = true
ci_n_equal a b (suc n) =
    let rest = ci_n_equal (drop 1 a) (drop 1 b) n in
    if not (to_lower (char_at a) == to_lower (char_at b)) then false else rest

-- skip_ws, and ltrim_ptr on the pointer it is given.
unfoldable pub skip_ws : Bytes → Bytes
skip_ws [] = []
skip_ws (c ∷ rest) = let later = skip_ws rest in if is_space c then later else c ∷ rest

abbrev pub is_empty : Bytes → Bool
is_empty [] = true
is_empty (_ ∷ _) = false

-- The text without the white space at its end.
unfoldable pub rtrim_inplace : Bytes → Bytes
rtrim_inplace [] = []
rtrim_inplace (c ∷ rest) =
    let trimmed = rtrim_inplace rest in if is_empty trimmed && is_space c then [] else c ∷ trimmed

unfoldable pub is_word : ℕ → Bool
is_word c = is_alnum c || c == b'_'

-- The bytes of a word, and the rest.
unfoldable pub span_word : Bytes → Bytes × Bytes
span_word [] = ([], [])
span_word (c ∷ rest) =
    let (word, after) = span_word rest in if is_word c then (c ∷ word, after) else ([], c ∷ rest)

-- The identifier as the buffer of `out_sz` bytes holds it, and the rest of the text.
unfoldable pub parse_identifier : Bytes → ℕ → Option (Bytes × Bytes)
parse_identifier text out_sz =
    let p = skip_ws text in
    let (word, after) = span_word p in
    if is_alpha (char_at p) || char_at p == b'_' then some (take (out_sz - 1) word, after) else none

-- Behind the keyword. The code reads `p[n]` before it compares: where the text is shorter than the
-- keyword that is a read behind its NUL, and the comparison fails whatever stands there.
unfoldable pub consume_keyword : Bytes → Bytes → Option Bytes
consume_keyword text kw =
    let p = skip_ws text in
    let after = drop (length kw) p in
    if is_empty after
    then none
    else if not (ci_n_equal p kw (length kw))
    then none
    else if is_word (char_at after)
    then none
    else some after

unfoldable pub trim_copy : Bytes → ℕ → Bytes
trim_copy src dst_sz = take (dst_sz - 1) (rtrim_inplace (skip_ws src))

unfoldable pub all_digits : Bytes → Bool
all_digits [] = true
all_digits (c ∷ rest) = if not (is_digit c) then false else all_digits rest

-- Behind the sign.
unfoldable pub is_unsigned_literal : Bytes → Bool
is_unsigned_literal s = not (is_empty s) && all_digits s

unfoldable pub is_integer_literal : Bytes → Bool
is_integer_literal [] = false
is_integer_literal (c ∷ rest) =
    if c == b'+' || c == b'-' then is_unsigned_literal rest else is_unsigned_literal (c ∷ rest)
