-- ===== src/Prelude/Outcome.antt =====
-- What a Go call ends in: a value, an error value, or a run-time panic.
use mathlib.Core.Bool.{Bool}
use Prim.Native.String.{String}

-- An `error`: the text of `Error()`, and what `errors.IsNotFound` says of it.
pub record Error : Type 0 where
  pub message : String
  pub not_found : Bool

pub data Outcome {ℓ} (A : Type ℓ) : Type ℓ where
  ok : A → Outcome A
  err : Error → Outcome A
  panic : Outcome A

infixl 5 ◌>>=◌
abbrev pub ◌>>=◌ {ℓ κ} : {A : Type ℓ} {B : Type κ} → Outcome A → (A → Outcome B) → Outcome B
ok a >>= f = f a
err e >>= f = err e
panic >>= f = panic
