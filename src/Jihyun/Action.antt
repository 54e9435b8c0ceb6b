-- ===== src/Jihyun/Action.antt =====
-- A function that changes the state and returns a status: the new state comes back on failure
-- too, since what was written before stays written.
use jungle_week6_coding_sess.Prelude.{◌≡◌, ap, ◌∙◌}
use jungle_week6_coding_sess.Jihyun.Status.{SqlStatus}

-- `done a` is the status SQL_STATUS_OK with the out-parameters `a`.
pub data Outcome {ℓ} (A : Type ℓ) : Type ℓ where
  done : A → Outcome A
  fail : SqlStatus → Outcome A

abbrev pub Action : Type 0 → Type 0 → Type 0
Action S A = S → Outcome A × S

module _ {S A B : Type 0} where
  abbrev pub continue : Outcome A → (A → Action S B) → Action S B
  continue (done a) f s = f a s
  continue (fail e) f s = (fail e, s)

  infixl 5 ◌>>=◌ ◌>>◌
  abbrev pub ◌>>=◌ : Action S A → (A → Action S B) → Action S B
  ◌>>=◌ m f s = continue (m s).0 f (m s).1

  abbrev pub ◌>>◌ : Action S A → Action S B → Action S B
  m >> n = m >>= λ _. n

module _ {S A : Type 0} where
  abbrev pub pure : A → Action S A
  pure a s = (done a, s)

  abbrev pub raise : SqlStatus → Action S A
  raise e s = (fail e, s)

abbrev pub modify_state : {S : Type 0} → (S → S) → Action S (Unit {0})
modify_state f s = (done tt, f s)

-- The status that an action returns.
abbrev pub status_of {ℓ} : {A : Type ℓ} → Outcome A → SqlStatus
status_of (done _) = SqlStatus.ok
status_of (fail e) = e

-- A step that succeeds, and what follows it.
pub bind-done :
    {S A B : Type 0} {x : Outcome A × S} {s : S} {a : A} {r : Outcome B × S} (f : A → Action S B)
    → x ≡ (done a, s)
    → f a s ≡ r
    → continue x.0 f x.1 ≡ r
bind-done {S = S} {A = A} f e h = ap (λ (t : Outcome A × S). continue t.0 f t.1) e ∙ h
