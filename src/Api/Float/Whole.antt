-- ===== src/Api/Float/Whole.antt =====
-- Whole numbers of at most 53 binary digits: their float64 arithmetic is that of the whole numbers.
use native.Mathlib.Nat.{mul-pos, le-div_iff_mul-le, div-le_of_le-mul}
use rhbk_operator.Prelude.{ℕ, ◌+◌, ◌*◌, ◌/◌, ◌^◌, ◌≤◌, ◌<◌, ◌≡◌, arith, refl}
use rhbk_operator.Api.Float.{Float, one, of_nat, add, mul, div, truncate}
use rhbk_operator.Api.Float.Exact.{IsExact, round_ratio-exact}
use rhbk_operator.Api.Float.Order.{one-positive}

-- The number n, and n halves.
abbrev pub whole : ℕ → Float
whole n = n * one

abbrev pub halves : ℕ → Float
halves n = n * 2 ^ 1073

whole-IsExact : (n : ℕ) → n ≤ 2 ^ 53 → IsExact (whole n)
unfolding one
whole-IsExact n few = (n, 1074, refl, few)

halves-IsExact : (n : ℕ) → n ≤ 2 ^ 53 → IsExact (halves n)
halves-IsExact n few = (n, 1073, refl, few)

pub of_nat-whole : (n : ℕ) → n ≤ 2 ^ 53 → of_nat n ≡ whole n
unfolding of_nat
of_nat-whole n few =
    round_ratio-exact 1 (omega arith) (whole n) (n * one) (whole-IsExact n few) (omega arith)

pub add-whole : (m n : ℕ) → m + n ≤ 2 ^ 53 → add (whole m) (whole n) ≡ whole (m + n)
unfolding add
add-whole m n few =
    round_ratio-exact 1 (omega arith) (whole (m + n)) (whole m + whole n)
      (whole-IsExact (m + n) few) (omega arith)

pub mul-whole : (m n : ℕ) → m * n ≤ 2 ^ 53 → mul (whole m) (whole n) ≡ whole (m * n)
unfolding mul
mul-whole m n few =
    round_ratio-exact one one-positive (whole (m * n)) (whole m * whole n)
      (whole-IsExact (m * n) few) (omega arith)

pub div-whole : (d n : ℕ) → 0 < d → n ≤ 2 ^ 53 → div (whole (d * n)) (whole d) ≡ whole n
unfolding div
div-whole d n positive few =
    round_ratio-exact (whole d) (mul-pos positive one-positive) (whole n) (whole (d * n) * one)
      (whole-IsExact n few) (omega arith)

-- A half of an odd number, and twice as many of them where a whole number is scaled.
pub div-halves : (n : ℕ) → n ≤ 2 ^ 53 → div (whole n) (whole 2) ≡ halves n
unfolding div
div-halves n few =
    round_ratio-exact (whole 2) (mul-pos {m = 2} (omega arith) one-positive) (halves n)
      (whole n * one) (halves-IsExact n few) (omega arith)

pub mul-halves : (m n : ℕ) → m * n ≤ 2 ^ 53 → mul (whole m) (halves n) ≡ halves (m * n)
unfolding mul
mul-halves m n few =
    round_ratio-exact one one-positive (halves (m * n)) (whole m * halves n)
      (halves-IsExact (m * n) few) (omega arith)

pub mul-halves-whole : (m n : ℕ) → m * n ≤ 2 ^ 53 → mul (halves m) (whole n) ≡ halves (m * n)
unfolding mul
mul-halves-whole m n few =
    round_ratio-exact one one-positive (halves (m * n)) (halves m * whole n)
      (halves-IsExact (m * n) few) (omega arith)

pub truncate-whole : (n : ℕ) → truncate (whole n) ≡ n
unfolding truncate
truncate-whole n =
    let least : n ≤ whole n / one = (le-div_iff_mul-le one-positive).1 (omega arith) in
    let most : whole n / one ≤ n = div-le_of_le-mul one (omega arith) in omega (arith, least, most)

pub halves-whole : (n : ℕ) → halves (2 * n) ≡ whole n
unfolding one
halves-whole n = omega arith
