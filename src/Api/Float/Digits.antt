-- ===== src/Api/Float/Digits.antt =====
-- The number of binary digits: the power of two above a number, and no fewer digits for a larger one.
use rhbk_operator.Prelude.{
  ℕ, zero, suc, ◌+◌, ◌*◌, ◌/◌, ◌^◌, ◌≤◌, ◌<◌, ◌≢◌, ◌≡◌, arith, ap, ◌∙◌, refl, Bool-cases, inl, inr,
  eqb,
}
use rhbk_operator.Api.Float.{digits, bit_length}

pub pow-suc_two : (k : ℕ) → 2 ^ suc k ≡ 2 * 2 ^ k
pow-suc_two k = omega arith

-- A number above 0 has one digit more than its half.
digits-half : (fuel n : ℕ) → n ≢ 0 → digits (suc fuel) n ≡ suc (digits fuel (n / 2))
unfolding digits
digits-half fuel n positive = ground arith

digits-zero : (fuel : ℕ) → digits fuel 0 ≡ 0
unfolding digits
digits-zero zero = refl
digits-zero (suc fuel) = refl

digits-none : (n : ℕ) → digits 0 n ≡ 0
unfolding digits
digits-none n = refl

digits-one : (fuel : ℕ) → digits (suc fuel) 1 ≡ 1
digits-one fuel = digits-half fuel 1 (omega arith) ∙ ap suc (digits-zero fuel)

below-digits : (fuel n : ℕ) → n ≤ fuel → n < 2 ^ digits fuel n
below-digits zero n enough = rw (digits-none n) (omega arith)
below-digits (suc fuel) zero enough = rw (digits-zero (suc fuel)) (omega arith)
below-digits (suc fuel) (suc n) enough = rw (digits-half fuel (suc n) (omega arith)) (
    omega
      (arith, below-digits fuel (suc n / 2) (omega arith), pow-suc_two (digits fuel (suc n / 2))))

above-digits : (fuel n : ℕ) → n ≤ fuel → n ≢ 0 → 2 ^ digits fuel n ≤ 2 * n
above-digits zero n enough positive = omega (arith, positive)
above-digits (suc fuel) zero enough positive = omega (arith, positive)
above-digits (suc fuel) (suc zero) enough positive = rw (digits-one fuel) (omega arith)
above-digits (suc fuel) (suc (suc n)) enough positive =
    rw (digits-half fuel (suc (suc n)) (omega arith)) (
      omega (
        arith,
        above-digits fuel (suc (suc n) / 2) (omega arith) (omega arith),
        pow-suc_two (digits fuel (suc (suc n) / 2)),
      ))

pub digits-monotone : (f g n m : ℕ) → n ≤ f → m ≤ g → n ≤ m → digits f n ≤ digits g m
digits-monotone zero g n m hn hm h = omega (arith, digits-none n)
digits-monotone (suc f) g zero m hn hm h = omega (arith, digits-zero (suc f))
digits-monotone (suc f) zero (suc n) m hn hm h = omega arith
digits-monotone (suc f) (suc g) (suc n) m hn hm h = omega (
  arith,
  digits-half f (suc n) (omega arith),
  digits-half g m (omega arith),
  digits-monotone f g (suc n / 2) (m / 2) (omega arith) (omega arith) (omega arith),
)

pub bit_length-zero : bit_length 0 ≡ 0
unfolding bit_length digits
bit_length-zero = refl

pub below-bit_length : (n : ℕ) → n < 2 ^ bit_length n
unfolding bit_length
below-bit_length n = below-digits n n (omega arith)

pub above-bit_length : (n : ℕ) → n ≢ 0 → 2 ^ bit_length n ≤ 2 * n
unfolding bit_length
above-bit_length n = above-digits n n (omega arith)

pub bit_length-monotone : (n m : ℕ) → n ≤ m → bit_length n ≤ bit_length m
unfolding bit_length
bit_length-monotone n m = digits-monotone n m n m (omega arith) (omega arith)

pub pow-monotone : (a b : ℕ) → a ≤ b → 2 ^ a ≤ 2 ^ b
pow-monotone a zero h = let same : a ≡ 0 = omega arith in rw same (omega arith)
pow-monotone a (suc b) h = elim (Bool-cases (eqb a (suc b))) [
  | inl e ↦ let same : a ≡ suc b = ground arith in rw same (omega arith)
  | inr e ↦ let less : a ≤ b = ground arith in omega (arith, pow-monotone a b less, pow-suc_two b)
]

-- 53 binary places.
pub pow-places : (a : ℕ) → 2 ^ (a + 53) ≡ 2 ^ 53 * 2 ^ a
pow-places zero = refl
pow-places (suc a) =
    let e : suc a + 53 ≡ suc (a + 53) = omega arith in
    rw e (omega (arith, pow-suc_two (a + 53), pow-suc_two a, pow-places a))
