-- ===== src/Jiun/Results.antt =====
-- What the parts of a successful chain of results give.
use jungle_week6_coding_sess.Prelude.{◌≡◌, refl, Bool, true, false, Option, none, some}
use jungle_week6_coding_sess.Jiun.Types.{Message, Result, ok, err, ◌>>=◌, ◌>>◌, guard, want}

pub ok-bind {ℓ κ} :
    {A : Type ℓ} {B : Type κ} (m : Result A) (f : A → Result B) (b : B)
    → (m >>= f) ≡ ok b
    → (a : A) × (m ≡ ok a) × (f a ≡ ok b)
ok-bind (ok a) f b h = (a, refl, h)
ok-bind (err e) f b h = absurd cc

pub ok-want {ℓ κ} :
    {A : Type ℓ} {B : Type κ} (o : Option A) (e : Message) (f : A → Result B) (b : B)
    → (want o e >>= f) ≡ ok b
    → (a : A) × (o ≡ some a) × (f a ≡ ok b)
ok-want none e f b h = absurd cc
ok-want (some a) e f b h = (a, refl, h)

pub ok-guard {κ} :
    {B : Type κ} (test : Bool) (e : Message) (k : Result B) (b : B)
    → (guard test e >> k) ≡ ok b
    → (test ≡ true) × (k ≡ ok b)
ok-guard true e k b h = (refl, h)
ok-guard false e k b h = absurd cc

pub eq_of_ok {ℓ} : {A : Type ℓ} {a b : A} → ok a ≡ ok b → a ≡ b
eq_of_ok h = cc
