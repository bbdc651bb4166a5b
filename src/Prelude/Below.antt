-- ===== src/Prelude/Below.antt =====
-- A test of every number below a bound, by running it.
use Prim.Native.Nat.{ℕ, zero, suc, ◌<◌}
use mathlib.Core.Path.{◌≡◌, ap, ◌∙◌, refl}
use mathlib.Core.Logic.{◌⊎◌, inl, inr}
use mathlib.Core.Bool.{Bool, true, false, ◌&&◌}
use native.Mathlib.Omega.{arith}
use rhbk_operator.Prelude.Tests.{eqb, Bool-cases}

unfoldable pub all_below : (ℕ → Bool) → ℕ → Bool
all_below test zero = true
all_below test (suc n) = test n && all_below test n

both : (a b : Bool) → (a && b) ≡ true → (a ≡ true) × (b ≡ true)
both true b h = (refl, h)
both false b h = ground arith

compare-cases : (n k : ℕ) → n < suc k → (n ≡ k) ⊎ (n < k)
compare-cases n k h = elim (Bool-cases (eqb n k)) [
  | inl e ↦ inl (ground arith)
  | inr e ↦ inr (ground arith)
]

pub below : (test : ℕ → Bool) (k n : ℕ) → all_below test k ≡ true → n < k → test n ≡ true
unfolding all_below
below test zero n all h = absurd (omega (arith, h))
below test (suc k) n all h = elim (compare-cases n k h) [
  | inl e ↦ ap test e ∙ (both (test k) (all_below test k) all).0
  | inr less ↦ below test k n (both (test k) (all_below test k) all).1 less
]
