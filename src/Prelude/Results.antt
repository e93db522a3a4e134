-- ===== src/Prelude/Results.antt =====
-- `Result`, the `Async` and `Poll` of futures 0.1 as the program matches on them, and the ways in
-- which a call can fail to return.
use mathlib.Core.Bool.{Bool, true, false}

pub data Result {ℓ κ} (A : Type ℓ) (E : Type κ) : Type (ℓ ⊔ κ) where
  ok : A → Result A E
  err : E → Result A E

infixl 5 ◌>>=◌
abbrev pub ◌>>=◌ {ℓ κ ι} :
    {A : Type ℓ} {B : Type κ} {E : Type ι} → Result A E → (A → Result B E) → Result B E
ok a >>= f = f a
err e >>= f = err e

pub data Async {ℓ} (A : Type ℓ) : Type ℓ where
  ready : A → Async A
  not_ready : Async A

abbrev pub Poll {ℓ κ} : Type ℓ → Type κ → Type (ℓ ⊔ κ)
Poll A E = Result (Async A) E

-- A call that does not return: a panic, or a loop that never ends.
pub data Fault : Type 0 where
  panic diverges : Fault

-- `assert!`
abbrev pub assert : Bool → Result (Unit {0}) Fault
assert true = ok tt
assert false = err panic
