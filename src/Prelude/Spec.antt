-- ===== src/Prelude/Spec.antt =====
-- What the statements on tables are compared with: lines of texts with a comma between two of them,
-- the items at some positions, the items that pass a test or do not,
-- and lists of different names.
use Prim.Native.Nat.{ℕ}
use mathlib.Core.Path.{◌≡◌}
use mathlib.Core.Bool.{Bool, false}
use mathlib.Core.List.{List, [], ◌∷◌, ◌++◌, map}
use jungle_week6_coding_sess.Prelude.Tests.{if◌then◌else◌}
use jungle_week6_coding_sess.Prelude.Lists.{Bytes, get_or, All, bytes_eq}

-- The texts behind one another.
unfoldable pub concat : List Bytes → Bytes
concat [] = []
concat (text ∷ texts) = text ++ concat texts

-- The first text, each other one behind a comma, and a line feed.
unfoldable pub comma_line : List Bytes → Bytes
comma_line [] = 10 ∷ []
comma_line (text ∷ texts) = text ++ (concat (map (◌∷◌ b',') texts) ++ 10 ∷ [])

-- The items at the positions, the empty text where there is none.
abbrev pub at_positions : List ℕ → List Bytes → List Bytes
at_positions positions items = map (λ i. get_or items i []) positions

-- The items that do not pass the test, in their order.
unfoldable pub without : {A : Type 0} → (A → Bool) → List A → List A
without test [] = []
without test (x ∷ xs) = let rest = without test xs in if test x then rest else x ∷ rest

-- The items that pass the test, in their order.
unfoldable pub only : {A : Type 0} → (A → Bool) → List A → List A
only test [] = []
only test (x ∷ xs) = let rest = only test xs in if test x then x ∷ rest else rest

-- No two of the names are the same.
abbrev pub Distinct : List Bytes → Type 0
Distinct [] = Unit
Distinct (name ∷ later) = All (λ other. bytes_eq other name ≡ false) later × Distinct later
