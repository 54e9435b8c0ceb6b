-- ===== src/Libc/Text/Search.antt =====
-- What strstr and strchr leave of the text.
use jungle_week6_coding_sess.Prelude.{
  ℕ, ◌<◌, ◌≤◌, ◌≡◌, ap, true, Bytes, [], ◌∷◌, length, arith, some, inl, inr, Bool-cases, eq_of_some,
  ◌==◌,
}
use jungle_week6_coding_sess.Libc.Text.{starts_with, strstr, strchr}

-- No more than the text, and enough for the needle.
pub starts_with-length :
    (text prefix : Bytes) → starts_with text prefix ≡ true → length prefix ≤ length text
unfolding starts_with
starts_with-length text [] h = omega arith
starts_with-length [] (p ∷ prefix) h = absurd cc
starts_with-length (t ∷ text) (p ∷ prefix) h = elim (Bool-cases (t == p)) [
  | inl e ↦ omega (arith, starts_with-length text prefix (rw e at h))
  | inr e ↦ absurd (cc (rw e at h))
]

pub strstr-length :
    (text needle found : Bytes)
    → strstr text needle ≡ some found
    → (length needle ≤ length found) × (length found ≤ length text)
unfolding strstr
strstr-length [] needle found h = elim (Bool-cases (length needle == 0)) [
  | inl e ↦
      let same = ap length (eq_of_some (rw e at h)) in (ground (arith, same), omega (arith, same))
  | inr e ↦ absurd (cc (rw e at h))
]
strstr-length (c ∷ rest) needle found h = elim (Bool-cases (starts_with (c ∷ rest) needle)) [
  | inl e ↦
      let same = ap length (eq_of_some (rw (strstr, e) at h)) in
      let fits = starts_with-length (c ∷ rest) needle e in
      (omega (arith, same, fits), omega (arith, same))
  | inr e ↦
      let later = strstr-length rest needle found (rw (strstr, e) at h) in
      (omega (arith, later), omega (arith, later))
]

pub strchr-length :
    (text : Bytes) (wanted : ℕ) (found : Bytes)
    → strchr text wanted ≡ some found
    → (0 < length found) × (length found ≤ length text)
unfolding strchr
strchr-length [] wanted found h = absurd cc
strchr-length (c ∷ rest) wanted found h = elim (Bool-cases (c == wanted)) [
  | inl e ↦
      let same = ap length (eq_of_some (rw e at h)) in (omega (arith, same), omega (arith, same))
  | inr e ↦
      let later = strchr-length rest wanted found (rw e at h) in
      (omega (arith, later), omega (arith, later))
]
