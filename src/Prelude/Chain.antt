-- ===== src/Prelude/Chain.antt =====
-- Chains of optional results: `if (!step(&cursor)) return 0;`, one after the other.
use mathlib.Core.Path.{◌≡◌, refl}
use mathlib.Core.Bool.{Bool, true, false}
use mathlib.Core.Option.{Option, none, some}

infixl 5 ◌>>=◌ ◌>>◌
abbrev pub ◌>>=◌ {ℓ κ} : {In : Type ℓ} {Out : Type κ} → Option In → (In → Option Out) → Option Out
none >>= rest = none
some found >>= rest = rest found

abbrev pub ◌>>◌ {κ} : {Out : Type κ} → Option (Unit {0}) → Option Out → Option Out
none >> rest = none
some _ >> rest = rest

-- `if (!test) return 0;`
abbrev pub guard : Bool → Option (Unit {0})
guard false = none
guard true = some tt

-- What the first step of a chain that succeeds gives.
pub some-bind {ℓ κ} :
    {In : Type ℓ} {Out : Type κ} (step : Option In) (rest : In → Option Out) (out : Out)
    → (step >>= rest) ≡ some out
    → (found : In) × (step ≡ some found) × (rest found ≡ some out)
some-bind none rest out h = absurd cc
some-bind (some found) rest out h = (found, refl, h)
