-- ===== src/Api/Float/Exact.antt =====
-- The numbers that need no rounding: what is not above a ratio is not above the rounded ratio.
use native.Mathlib.Nat.{div-le_of_le-mul, mul-le-mul_right, mul-pos, mul_assoc}
use rhbk_operator.Prelude.{
  ℕ, zero, suc, ◌-◌, ◌*◌, ◌/◌, ◌^◌, ◌≤◌, ◌<◌, ◌≡◌, arith, ap, refl, Bool-cases, inl, inr, eqb, leb,
}
use rhbk_operator.Api.Float.{half_even, round_ratio, ulp, bit_length}
use rhbk_operator.Api.Float.Digits.{pow-monotone, pow-suc_two}
use rhbk_operator.Api.Float.Rounding.{
  half_even-above, half_even-below, half_even-digits, ulp-above, ulp-positive, round_ratio-above,
}

-- A number of at most 53 binary digits, and then zeroes.
abbrev pub IsExact : ℕ → Type 0
IsExact c = (h : ℕ) × (e : ℕ) × (c ≡ h * 2 ^ e) × (h ≤ 2 ^ 53)

pub zero-IsExact : IsExact 0
zero-IsExact = (0, 0, refl, omega arith)

pub round_ratio-IsExact : (p q : ℕ) → 0 < q → IsExact (round_ratio p q)
unfolding round_ratio ulp
round_ratio-IsExact p q positive =
    (half_even p (q * ulp (p / q)), bit_length (p / q) - 53, refl, half_even-digits q positive p)

-- A power of two is a multiple of each smaller one.
pow-multiple : (f e : ℕ) → f ≤ e → (k : ℕ) × (2 ^ e ≡ k * 2 ^ f)
pow-multiple f zero h = let same : f ≡ 0 = omega arith in (1, rw same (omega arith))
pow-multiple f (suc e) h = elim (Bool-cases (eqb f (suc e))) [
  | inl b ↦ let same : f ≡ suc e = ground arith in (1, rw same (omega arith))
  | inr b ↦
      let (k, multiple) = pow-multiple f e (ground arith) in
      (2 * k, omega (arith, pow-suc_two e, multiple, mul_assoc 2 k (2 ^ f)))
]

module _ (q : ℕ) (positive : 0 < q) where
  no_less-fine :
      (h e p : ℕ) → h * 2 ^ e * q ≤ p → bit_length (p / q) - 53 ≤ e → h * 2 ^ e ≤ round_ratio p q
  unfolding round_ratio ulp
  no_less-fine h e p below fine =
      let u = ulp (p / q) in
      let (k, multiple) = pow-multiple (bit_length (p / q) - 53) e fine in
      let same : q * (h * 2 ^ e) ≡ q * (h * (k * u)) = ap (λ (t : ℕ). q * (h * t)) multiple in
      let whole : h * k * (q * u) ≤ p = omega (arith, below, same) in
      omega (
        arith,
        mul-le-mul_right u
            (half_even-above (q * u) (mul-pos positive (ulp-positive (p / q))) (h * k) p whole),
        ap (λ (t : ℕ). h * t) multiple,
      )

  no_less-coarse :
      (h e p : ℕ) → h ≤ 2 ^ 53 → e < bit_length (p / q) - 53 → h * 2 ^ e ≤ round_ratio p q
  unfolding ulp
  no_less-coarse h e p few coarse = omega (
    arith,
    mul-le-mul_right (2 ^ e) few,
    pow-monotone (suc e) (bit_length (p / q) - 53) coarse,
    pow-suc_two e,
    round_ratio-above q positive p (omega (arith, coarse)),
  )

  pub round_ratio-no_less : (c p : ℕ) → IsExact c → c * q ≤ p → c ≤ round_ratio p q
  round_ratio-no_less c p (h, e, same, few) below =
      let scaled : h * 2 ^ e * q ≤ p = omega (arith, below, ap (λ (t : ℕ). t * q) same) in
      elim (Bool-cases (leb (bit_length (p / q) - 53) e)) [
        | inl b ↦
            let fine : bit_length (p / q) - 53 ≤ e = ground arith in
            omega (arith, same, no_less-fine h e p scaled fine)
        | inr b ↦
            let coarse : e < bit_length (p / q) - 53 = ground arith in
            omega (arith, same, no_less-coarse h e p few coarse)
      ]

  no_more-fine :
      (h e p : ℕ) → p ≤ h * 2 ^ e * q → bit_length (p / q) - 53 ≤ e → round_ratio p q ≤ h * 2 ^ e
  unfolding round_ratio ulp
  no_more-fine h e p above fine =
      let u = ulp (p / q) in
      let (k, multiple) = pow-multiple (bit_length (p / q) - 53) e fine in
      let same : q * (h * 2 ^ e) ≡ q * (h * (k * u)) = ap (λ (t : ℕ). q * (h * t)) multiple in
      let whole : p ≤ h * k * (q * u) = omega (arith, above, same) in
      omega (
        arith,
        mul-le-mul_right u
            (half_even-below (q * u) (mul-pos positive (ulp-positive (p / q))) (h * k) p whole),
        ap (λ (t : ℕ). h * t) multiple,
      )

  -- There are too few digits for a coarser unit, but where the number is a power of two.
  no_more-coarse :
      (h e p : ℕ)
      → p ≤ h * 2 ^ e * q
      → h ≤ 2 ^ 53
      → e < bit_length (p / q) - 53
      → round_ratio p q ≤ h * 2 ^ e
  unfolding round_ratio ulp
  no_more-coarse h e p above few coarse =
      let v = ulp (p / q) in
      let bounded : p / q ≤ h * 2 ^ e = div-le_of_le-mul q (omega (arith, above)) in
      let power : h * 2 ^ e ≡ 2 ^ 52 * v = omega (
        arith,
        bounded,
        mul-le-mul_right (2 ^ e) few,
        ulp-above (p / q) (omega (arith, coarse)),
        pow-monotone (suc e) (bit_length (p / q) - 53) coarse,
        pow-suc_two e,
      ) in
      let whole : p ≤ 2 ^ 52 * (q * v) = omega (arith, above, ap (λ (t : ℕ). t * q) power) in
      omega (
        arith,
        power,
        mul-le-mul_right v
            (half_even-below (q * v) (mul-pos positive (ulp-positive (p / q))) (2 ^ 52) p whole),
      )

  pub round_ratio-no_more : (c p : ℕ) → IsExact c → p ≤ c * q → round_ratio p q ≤ c
  round_ratio-no_more c p (h, e, same, few) above =
      let scaled : p ≤ h * 2 ^ e * q = omega (arith, above, ap (λ (t : ℕ). t * q) same) in
      elim (Bool-cases (leb (bit_length (p / q) - 53) e)) [
        | inl b ↦
            let fine : bit_length (p / q) - 53 ≤ e = ground arith in
            omega (arith, same, no_more-fine h e p scaled fine)
        | inr b ↦
            let coarse : e < bit_length (p / q) - 53 = ground arith in
            omega (arith, same, no_more-coarse h e p scaled few coarse)
      ]

  -- What needs no rounding is not rounded.
  pub round_ratio-exact : (c p : ℕ) → IsExact c → p ≡ c * q → round_ratio p q ≡ c
  round_ratio-exact c p exact e = omega (
    arith,
    round_ratio-no_less c p exact (omega (arith, e)),
    round_ratio-no_more c p exact (omega (arith, e)),
  )
