-- ===== src/Api/Float/Rounding.antt =====
-- Rounding does not turn an order round: the larger of two ratios has the larger nearest number, also
-- where the two have another number of digits.
use native.Mathlib.Nat.{
  div-add-mod, div-add-mod', le-div_iff_mul-le, div-le_of_le-mul, mul-le-mul_left, mul-le-mul_right,
  mul-pos, mul_comm, mul_left_comm, lt-mul-div-succ,
}
use rhbk_operator.Prelude.{
  ℕ, suc, ◌+◌, ◌-◌, ◌*◌, ◌/◌, ◌%◌, ◌^◌, ◌≤◌, ◌<◌, ◌≡◌, arith, ap, Bool-cases, inl, inr, eqb, ltb,
  if◌then◌else◌,
}
use rhbk_operator.Api.Float.{half_even, round_ratio, ulp, bit_length}
use rhbk_operator.Api.Float.Digits.{
  bit_length-zero, below-bit_length, above-bit_length, bit_length-monotone, pow-monotone,
  pow-places, pow-suc_two,
}

-- A whole number and a rest, rounded: `half_even` of a sum k * d + r.
abbrev settle : ℕ → ℕ → ℕ → ℕ
settle k r d = if ltb (2 * r) d then k else if ltb d (2 * r) then k + 1 else k + k % 2

settle-within : (k r d : ℕ) → (k ≤ settle k r d) × (settle k r d ≤ k + 1)
settle-within k r d = ground arith

settle-monotone : (k r s d : ℕ) → r ≤ s → settle k r d ≤ settle k s d
settle-monotone k r s d h = ground arith

module _ (d : ℕ) (positive : 0 < d) where
  half_even-within : (p : ℕ) → (p / d ≤ half_even p d) × (half_even p d ≤ p / d + 1)
  unfolding half_even
  half_even-within p = settle-within (p / d) (p % d) d

  pub half_even-above : (n p : ℕ) → n * d ≤ p → n ≤ half_even p d
  half_even-above n p h = omega (arith, (le-div_iff_mul-le positive).1 h, (half_even-within p).0)

  half_even-exact : (p : ℕ) → p % d ≡ 0 → half_even p d ≡ p / d
  unfolding half_even
  half_even-exact p e = ground (arith)

  pub half_even-below : (n p : ℕ) → p ≤ n * d → half_even p d ≤ n
  half_even-below n p h =
      let most : p / d ≤ n = div-le_of_le-mul d (omega (arith, mul_comm n d)) in
      elim (Bool-cases (eqb (p / d) n)) [
        | inl e ↦
            let same : p / d ≡ n = ground arith in
            let none_left : p % d ≡ 0 =
              omega (arith, div-add-mod p d, ap (λ (k : ℕ). d * k) same, mul_comm n d) in
            omega (arith, half_even-exact p none_left)
        | inr e ↦ let less : p / d < n = ground arith in omega (arith, (half_even-within p).1)
      ]

  half_even-monotone : (p q : ℕ) → p ≤ q → half_even p d ≤ half_even q d
  unfolding half_even
  half_even-monotone p q h =
      let no_less : p / d ≤ q / d =
        (le-div_iff_mul-le positive).1 (omega (arith, div-add-mod' p d)) in
      elim (Bool-cases (eqb (p / d) (q / d))) [
        | inl e ↦
            let same : p / d ≡ q / d = ground arith in
            let rests : p % d ≤ q % d =
              omega (arith, div-add-mod p d, div-add-mod q d, ap (λ (k : ℕ). d * k) same) in
            omega (
              arith,
              settle-monotone (p / d) (p % d) (q % d) d rests,
              ap (λ (k : ℕ). settle k (q % d) d) same,
            )
        | inr e ↦
            let less : p / d < q / d = ground arith in
            omega (arith, settle-within (p / d) (p % d) d, settle-within (q / d) (q % d) d)
      ]

pub ulp-positive : (x : ℕ) → 0 < ulp x
unfolding ulp
ulp-positive x = pow-monotone 0 (bit_length x - 53) (omega arith)

ulp-below : (x : ℕ) → x + 1 ≤ 2 ^ 53 * ulp x
unfolding ulp
ulp-below x = omega (
  arith,
  below-bit_length x,
  pow-monotone (bit_length x) (bit_length x - 53 + 53) (omega arith),
  pow-places (bit_length x - 53),
)

-- A number with more than 53 digits has 53 of them in front of its unit.
pub ulp-above : (x : ℕ) → 53 ≤ bit_length x → 2 ^ 52 * ulp x ≤ x
unfolding ulp
ulp-above x long =
    let e : bit_length x - 53 + 53 ≡ bit_length x = omega arith in
    omega (
      arith,
      above-bit_length x (λ z. omega (arith, long, ap bit_length z, bit_length-zero)),
      pow-places (bit_length x - 53),
      ap (λ (k : ℕ). 2 ^ k) e,
    )

ulp-grows : (x y : ℕ) → bit_length x - 53 < bit_length y - 53 → 2 * ulp x ≤ ulp y
unfolding ulp
ulp-grows x y h = omega (
  arith,
  pow-monotone (suc (bit_length x - 53)) (bit_length y - 53) h,
  pow-suc_two (bit_length x - 53),
)

-- Of two ratios with one denominator, the larger is not rounded to the smaller number.
module _ (q : ℕ) (positive : 0 < q) where
  pub half_even-digits : (p : ℕ) → half_even p (q * ulp (p / q)) ≤ 2 ^ 53
  half_even-digits p =
      let u = ulp (p / q) in
      let scaled : q * (p / q + 1) ≤ q * (2 ^ 53 * u) = mul-le-mul_left q (ulp-below (p / q)) in
      let whole : p ≤ 2 ^ 53 * (q * u) =
        omega (arith, lt-mul-div-succ p positive, scaled, mul_left_comm q (2 ^ 53) u) in
      half_even-below (q * u) (mul-pos positive (ulp-positive (p / q))) (2 ^ 53) p whole

  round_ratio-below : (p : ℕ) → round_ratio p q ≤ 2 ^ 53 * ulp (p / q)
  unfolding round_ratio
  round_ratio-below p = mul-le-mul_right (ulp (p / q)) (half_even-digits p)

  pub round_ratio-above : (p : ℕ) → 53 ≤ bit_length (p / q) → 2 ^ 52 * ulp (p / q) ≤ round_ratio p q
  unfolding round_ratio
  round_ratio-above p long =
      let u = ulp (p / q) in
      let scaled : q * (2 ^ 52 * u) ≤ q * (p / q) = mul-le-mul_left q (ulp-above (p / q) long) in
      let whole : 2 ^ 52 * (q * u) ≤ p =
        omega (arith, div-add-mod p q, scaled, mul_left_comm q (2 ^ 52) u) in
      mul-le-mul_right u
        (half_even-above (q * u) (mul-pos positive (ulp-positive (p / q))) (2 ^ 52) p whole)

  round_ratio-same_unit :
      (p p' : ℕ)
      → p ≤ p'
      → bit_length (p / q) - 53 ≡ bit_length (p' / q) - 53
      → round_ratio p q ≤ round_ratio p' q
  unfolding round_ratio ulp
  round_ratio-same_unit p p' h e =
      let u = ulp (p / q) in
      let same : u ≡ ulp (p' / q) = ap (λ (k : ℕ). 2 ^ k) e in
      omega (
        arith,
        mul-le-mul_right u
            (half_even-monotone (q * u) (mul-pos positive (ulp-positive (p / q))) p p' h),
        ap (λ (v : ℕ). half_even p' (q * v) * v) same,
      )

  pub round_ratio-monotone : (p p' : ℕ) → p ≤ p' → round_ratio p q ≤ round_ratio p' q
  round_ratio-monotone p p' h =
      let x = p / q in
      let y = p' / q in
      let ordered : x ≤ y = (le-div_iff_mul-le positive).1 (omega (arith, div-add-mod' p q)) in
      elim (Bool-cases (ltb (bit_length x - 53) (bit_length y - 53))) [
        | inl e ↦
            let fewer : bit_length x - 53 < bit_length y - 53 = ground arith in
            omega (
              arith,
              round_ratio-below p,
              round_ratio-above p' (omega (arith, fewer)),
              ulp-grows x y fewer,
            )
        | inr e ↦
            let no_fewer : bit_length y - 53 ≤ bit_length x - 53 = ground arith in
            round_ratio-same_unit p p' h (omega (arith, no_fewer, bit_length-monotone x y ordered))
      ]
