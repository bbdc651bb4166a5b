-- ===== src/Api/Float.antt =====
-- Go's `float64` on the values that the sizing computes, none of them negative, infinite or NaN.
-- Every such number is a multiple of 2 ^ -1074, and is modelled by the multiple. The operations
-- round the exact result to the nearest of 53 binary digits, ties to even, as IEEE 754 does.
pub mod Digits
pub mod Rounding
pub mod Exact
pub mod Order
pub mod Whole
use rhbk_operator.Prelude.{
  ℕ, zero, suc, ◌+◌, ◌-◌, ◌*◌, ◌/◌, ◌%◌, ◌^◌, true, false, ltb, eqb, if◌then◌else◌,
}

abbrev pub Float : Type 0
Float = ℕ

-- The number 1.
unfoldable pub one : Float
one = 2 ^ 1074

-- The number of binary digits, for a number that is not above the fuel.
unfoldable pub digits : ℕ → ℕ → ℕ
digits zero n = 0
digits (suc fuel) n = elim (eqb n 0) [ true ↦ 0 | false ↦ suc (digits fuel (n / 2)) ]

unfoldable pub bit_length : ℕ → ℕ
unfolding digits
bit_length n = digits n n

-- The unit of the last of 53 digits.
unfoldable pub ulp : ℕ → ℕ
unfolding bit_length
ulp x = 2 ^ (bit_length x - 53)

-- p / d rounded to a whole number, a half to the even one.
unfoldable pub half_even : ℕ → ℕ → ℕ
half_even p d =
    if ltb (2 * (p % d)) d
    then p / d
    else if ltb d (2 * (p % d))
    then p / d + 1
    else p / d + (p / d) % 2

-- p / q units, rounded to a number.
unfoldable pub round_ratio : ℕ → ℕ → Float
unfolding ulp half_even
round_ratio p q = half_even p (q * ulp (p / q)) * ulp (p / q)

-- float64(n), for a whole number n that is not negative
unfoldable pub of_nat : ℕ → Float
unfolding round_ratio one
of_nat n = round_ratio (n * one) 1

unfoldable pub add : Float → Float → Float
unfolding round_ratio
add a b = round_ratio (a + b) 1

unfoldable pub mul : Float → Float → Float
unfolding round_ratio one
mul a b = round_ratio (a * b) one

unfoldable pub div : Float → Float → Float
unfolding round_ratio one
div a b = round_ratio (a * one) b

-- math.Ceil
unfoldable pub ceil : Float → Float
unfolding one
ceil a = (a + one - 1) / one * one

-- int64(a)
unfoldable pub truncate : Float → ℕ
unfolding one
truncate a = a / one
