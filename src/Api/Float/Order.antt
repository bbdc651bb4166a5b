-- ===== src/Api/Float/Order.antt =====
-- The operations of float64 keep the order of their operands.
use native.Mathlib.Nat.{
  mul-le-mul, mul-le-mul_left, mul-le-mul_right, le-div_iff_mul-le, div-add-mod', mul_comm,
}
use rhbk_operator.Prelude.{ℕ, ◌+◌, ◌*◌, ◌≤◌, ◌<◌, arith, refl}
use rhbk_operator.Api.Float.{Float, one, of_nat, add, mul, div, truncate}
use rhbk_operator.Api.Float.Digits.{pow-monotone}
use rhbk_operator.Api.Float.Rounding.{round_ratio-monotone}
use rhbk_operator.Api.Float.Exact.{IsExact, round_ratio-IsExact, round_ratio-no_less}

pub one-positive : 0 < one
unfolding one
one-positive = pow-monotone 0 1074 (omega arith)

one-IsExact : IsExact one
unfolding one
one-IsExact = (1, 1074, refl, omega arith)

pub of_nat-IsExact : (n : ℕ) → IsExact (of_nat n)
unfolding of_nat
of_nat-IsExact n = round_ratio-IsExact (n * one) 1 (omega arith)

pub of_nat-monotone : (n m : ℕ) → n ≤ m → of_nat n ≤ of_nat m
unfolding of_nat
of_nat-monotone n m h =
    round_ratio-monotone 1 (omega arith) (n * one) (m * one) (mul-le-mul_right one h)

pub one-of_nat : (n : ℕ) → 0 < n → one ≤ of_nat n
unfolding of_nat
one-of_nat n h =
    round_ratio-no_less 1 (omega arith) one (n * one) one-IsExact
      (omega (arith, mul-le-mul_right one h))

pub add-IsExact : (a b : Float) → IsExact (add a b)
unfolding add
add-IsExact a b = round_ratio-IsExact (a + b) 1 (omega arith)

pub add-monotone : (a b a' b' : Float) → a ≤ a' → b ≤ b' → add a b ≤ add a' b'
unfolding add
add-monotone a b a' b' h k = round_ratio-monotone 1 (omega arith) (a + b) (a' + b') (omega arith)

pub add-no_less : (a b : Float) → IsExact a → a ≤ add a b
unfolding add
add-no_less a b exact = round_ratio-no_less 1 (omega arith) a (a + b) exact (omega arith)

pub mul-monotone : (a b a' b' : Float) → a ≤ a' → b ≤ b' → mul a b ≤ mul a' b'
unfolding mul
mul-monotone a b a' b' h k =
    round_ratio-monotone one one-positive (a * b) (a' * b') (mul-le-mul h k)

pub mul-no_less : (a b : Float) → IsExact a → one ≤ b → a ≤ mul a b
unfolding mul
mul-no_less a b exact h = round_ratio-no_less one one-positive a (a * b) exact (mul-le-mul_left a h)

pub div-monotone : (a a' b : Float) → 0 < b → a ≤ a' → div a b ≤ div a' b
unfolding div
div-monotone a a' b positive h =
    round_ratio-monotone b positive (a * one) (a' * one) (mul-le-mul_right one h)

pub truncate-monotone : (a b : Float) → a ≤ b → truncate a ≤ truncate b
unfolding truncate
truncate-monotone a b h = (le-div_iff_mul-le one-positive).1 (omega (arith, div-add-mod' a one))

pub divisor-positive : (n m : ℕ) → 0 < n → 0 < m → 0 < mul (of_nat n) (of_nat m)
divisor-positive n m hn hm = omega (
  arith,
  one-positive,
  one-of_nat n hn,
  mul-no_less (of_nat n) (of_nat m) (of_nat-IsExact n) (one-of_nat m hm),
)

pub one-div : (n m : ℕ) → 0 < m → m ≤ n → one ≤ div (of_nat n) (of_nat m)
unfolding div
one-div n m positive h =
    round_ratio-no_less (of_nat m) (omega (arith, one-positive, one-of_nat m positive)) one
      (of_nat n * one) one-IsExact
      (omega (arith, mul-le-mul_right one (of_nat-monotone m n h), mul_comm one (of_nat m)))
