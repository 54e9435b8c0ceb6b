-- ===== src/Prelude/Words.antt =====
-- Little-endian 32-bit words in byte strings, and block writes.
use jungle_week6_coding_sess.Prelude.Lists.{
  Bytes, length, drop, take, take-append, drop-append, drop_all, drop-drop, length-append,
  length-drop,
}
use Prim.Native.Nat.{ℕ, zero, suc, ◌+◌, ◌-◌, ◌*◌, ◌/◌, ◌%◌, ◌^◌, ◌≤◌, ◌<◌, max}
use mathlib.Core.Path.{◌≡◌, refl, ap, ◌∙◌}
use mathlib.Core.List.{[], ◌∷◌, ◌++◌}
use native.Mathlib.Omega.{arith}

abbrev pub u32_mod : ℕ
u32_mod = 2 ^ 32

abbrev pub u64_mod : ℕ
u64_mod = 2 ^ 64

-- The four bytes of a `uint32_t` in memory, least significant first.
unfoldable pub u32_bytes : ℕ → Bytes
u32_bytes n = (n % 256) ∷ ((n / 256) % 256) ∷ ((n / 65536) % 256) ∷ ((n / 16777216) % 256) ∷ []

-- `memcpy(&word, p, 4)`, of bytes. Where fewer than four are left the model reads zero.
unfoldable pub read_u32 : Bytes → ℕ
read_u32 (a ∷ b ∷ c ∷ d ∷ r) = a % 256 + 256 * (b % 256) + 65536 * (c % 256) + 16777216 * (d % 256)
read_u32 _ = 0

pub length-u32_bytes : (n : ℕ) → length (u32_bytes n) ≡ 4
unfolding u32_bytes
length-u32_bytes n = refl

pub read_u32-u32_bytes : (n : ℕ) (r : Bytes) → n < u32_mod → read_u32 (u32_bytes n ++ r) ≡ n
unfolding read_u32 u32_bytes
read_u32-u32_bytes n r h = omega arith

pub read_u32-lt : (bytes : Bytes) → read_u32 bytes < u32_mod
unfolding read_u32
read_u32-lt (a ∷ b ∷ c ∷ d ∷ r) = omega arith
read_u32-lt [] = omega arith
read_u32-lt (a ∷ []) = omega arith
read_u32-lt (a ∷ b ∷ []) = omega arith
read_u32-lt (a ∷ b ∷ c ∷ []) = omega arith

-- A block write at an offset. A gap before the offset is filled with zeros, as a file is.
unfoldable pub overwrite : ℕ → Bytes → Bytes → Bytes
overwrite zero new old = new ++ drop (length new) old
overwrite (suc n) new [] = 0 ∷ overwrite n new []
overwrite (suc n) new (b ∷ old) = b ∷ overwrite n new old

-- A block write right behind `old`, over what stands there.
pub overwrite-append :
    (old new free : Bytes)
    → overwrite (length old) new (old ++ free) ≡ old ++ (new ++ drop (length new) free)
unfolding overwrite
overwrite-append [] new free = refl
overwrite-append (b ∷ old) new free = ap (◌∷◌ b) (overwrite-append old new free)

-- What stands behind a block write is what stood there before.
pub drop-overwrite :
    (n m : ℕ) (new old : Bytes) → n + length new ≤ m → drop m (overwrite n new old) ≡ drop m old
unfolding overwrite drop
drop-overwrite zero m new old h =
    let e : m ≡ length new + (m - length new) = omega arith in
    rw
      (
        e,
        ← drop-drop (length new) (m - length new) (new ++ drop (length new) old),
        drop-append (length new) new (drop (length new) old) refl,
      )
      (drop-drop (length new) (m - length new) old)
drop-overwrite (suc n) zero new old h = absurd (omega arith)
drop-overwrite (suc n) (suc m) new [] h =
    drop-overwrite n m new [] (omega arith) ∙ drop_all m [] (omega arith)
drop-overwrite (suc n) (suc m) new (b ∷ old) h = drop-overwrite n m new old (omega arith)

-- At its offset stands the block.
pub take-drop-overwrite :
    (n : ℕ) (new old : Bytes) → take (length new) (drop n (overwrite n new old)) ≡ new
unfolding overwrite drop
take-drop-overwrite zero new old = take-append (length new) new (drop (length new) old) refl
take-drop-overwrite (suc n) new [] = take-drop-overwrite n new []
take-drop-overwrite (suc n) new (b ∷ old) = take-drop-overwrite n new old

take-overwrite :
    (n c : ℕ) (new old : Bytes) → c ≤ n → c ≤ length old → take c (overwrite n new old) ≡ take c old
unfolding overwrite take
take-overwrite n zero new old h k = refl
take-overwrite zero (suc c) new old h k = absurd (omega arith)
take-overwrite (suc n) (suc c) new [] h k = absurd (omega arith)
take-overwrite (suc n) (suc c) new (b ∷ old) h k =
    ap (◌∷◌ b) (take-overwrite n c new old (omega arith) (omega arith))

-- What stands in front of a block write, and inside the old bytes, stays.
pub take-drop-overwrite_before :
    (n m c : ℕ) (new old : Bytes)
    → m + c ≤ n
    → m + c ≤ length old
    → take c (drop m (overwrite n new old)) ≡ take c (drop m old)
unfolding overwrite drop
take-drop-overwrite_before n zero c new old h k =
    take-overwrite n c new old (omega arith) (omega arith)
take-drop-overwrite_before zero (suc m) c new old h k = absurd (omega arith)
take-drop-overwrite_before (suc n) (suc m) c new [] h k = absurd (omega arith)
take-drop-overwrite_before (suc n) (suc m) c new (b ∷ old) h k =
    take-drop-overwrite_before n m c new old (omega arith) (omega arith)

pub length-overwrite-max :
    (n : ℕ) (new old : Bytes) → length (overwrite n new old) ≡ max (n + length new) (length old)
unfolding overwrite
length-overwrite-max zero new old =
    omega (arith, length-append new (drop (length new) old), length-drop (length new) old)
length-overwrite-max (suc n) new [] = omega (arith, length-overwrite-max n new [])
length-overwrite-max (suc n) new (b ∷ old) = omega (arith, length-overwrite-max n new old)
