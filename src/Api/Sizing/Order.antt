-- ===== src/Api/Sizing/Order.antt =====
-- The CPU as a number of the load, in float64: it grows with each rate, and so do the request and the
-- limit that are made of it.
use rhbk_operator.Prelude.{
  ℕ, ◌^◌, ◌≤◌, ◌<◌, ◌≡◌, arith, refl, true, false, Bool-cases, inl, inr, Option, none, some,
}
use rhbk_operator.Kube.Meta.{Int32}
use rhbk_operator.Api.Types.{RealmSizing}
use rhbk_operator.Api.Float.{Float, one, of_nat, add, mul, div}
use rhbk_operator.Api.Float.Exact.{IsExact, zero-IsExact}
use rhbk_operator.Api.Float.Order.{
  of_nat-monotone, add-IsExact, add-monotone, add-no_less, mul-monotone, mul-no_less, div-monotone,
  truncate-monotone, divisor-positive, one-div,
}
use rhbk_operator.Api.Sizing.{
  is_positive, effective_instances, add_load, cpu_cores, cpu_request, cpu_limit,
}

pub instances-positive : (instances : Option Int32) → 0 < effective_instances instances
unfolding effective_instances
instances-positive none = omega arith
instances-positive (some n) = ground arith

module _ (per_core inst : ℕ) where
  -- What one load adds.
  abbrev pub part : Int32 → Float
  part rate = div (of_nat rate) (mul (of_nat per_core) (of_nat inst))

  pub add_load-busy :
      (rate : Int32) (cores : Float)
      → is_positive rate ≡ true
      → add_load per_core inst rate cores ≡ add cores (part rate)
  unfolding add_load
  add_load-busy rate cores e = rw e refl

  pub add_load-idle :
      (rate : Int32) (cores : Float)
      → is_positive rate ≡ false
      → add_load per_core inst rate cores ≡ cores
  unfolding add_load
  add_load-idle rate cores e = rw e refl

  add_load-IsExact :
      (rate : Int32) (cores : Float) → IsExact cores → IsExact (add_load per_core inst rate cores)
  add_load-IsExact rate cores exact = elim (Bool-cases (is_positive rate)) [
    | inl e ↦ rw (add_load-busy rate cores e) (add-IsExact cores (part rate))
    | inr e ↦ rw (add_load-idle rate cores e) exact
  ]

  add_load-monotone :
      (rate rate' : Int32) (cores cores' : Float)
      → 0 < mul (of_nat per_core) (of_nat inst)
      → IsExact cores'
      → rate ≤ rate'
      → rate' < 2 ^ 31
      → cores ≤ cores'
      → add_load per_core inst rate cores ≤ add_load per_core inst rate' cores'
  add_load-monotone rate rate' cores cores' divisible exact h small more =
      elim (Bool-cases (is_positive rate)) [
        | inl e ↦
            let busy : is_positive rate' ≡ true = ground arith in
            rw (add_load-busy rate cores e, add_load-busy rate' cores' busy)
              (add-monotone cores (part rate) cores' (part rate') more (
                div-monotone (of_nat rate) (of_nat rate') (mul (of_nat per_core) (of_nat inst))
                  divisible (of_nat-monotone rate rate' h)))
        | inr e ↦ elim (Bool-cases (is_positive rate')) [
          | inl busy ↦ omega (
            arith,
            add_load-idle rate cores e,
            add_load-busy rate' cores' busy,
            add-no_less cores' (part rate') exact,
          )
          | inr idle ↦ omega (arith, add_load-idle rate cores e, add_load-idle rate' cores' idle)
        ]
      ]

-- No number of the first is above that of the second, and none is negative.
abbrev pub CarriesNoMore : RealmSizing → RealmSizing → Type 0
CarriesNoMore r s =
    (r.logins_per_second ≤ s.logins_per_second)
    × (s.logins_per_second < 2 ^ 31)
    × (r.client_credentials_grants_per_second ≤ s.client_credentials_grants_per_second)
    × (s.client_credentials_grants_per_second < 2 ^ 31)
    × (r.refresh_token_grants_per_second ≤ s.refresh_token_grants_per_second)
    × (s.refresh_token_grants_per_second < 2 ^ 31)

pub cpu_cores-monotone :
    (r s : RealmSizing) (inst : ℕ)
    → 0 < inst
    → CarriesNoMore r s
    → cpu_cores r inst ≤ cpu_cores s inst
unfolding cpu_cores
cpu_cores-monotone r s inst positive (logins, few, clients, few', tokens, few'') =
    let logins_only = add_load 15 inst s.logins_per_second 0 in
    let exact = add_load-IsExact 15 inst s.logins_per_second 0 zero-IsExact in
    add_load-monotone 120 inst r.refresh_token_grants_per_second s.refresh_token_grants_per_second
      (add_load 120 inst r.client_credentials_grants_per_second
        (add_load 15 inst r.logins_per_second 0))
      (add_load 120 inst s.client_credentials_grants_per_second logins_only)
      (divisor-positive 120 inst (omega arith) positive)
      (add_load-IsExact 120 inst s.client_credentials_grants_per_second logins_only exact) tokens
      few''
      (add_load-monotone 120 inst r.client_credentials_grants_per_second
        s.client_credentials_grants_per_second (add_load 15 inst r.logins_per_second 0) logins_only
        (divisor-positive 120 inst (omega arith) positive) exact clients few'
        (add_load-monotone 15 inst r.logins_per_second s.logins_per_second 0 0
          (divisor-positive 15 inst (omega arith) positive) zero-IsExact logins few (omega arith)))

pub cpu_cores-IsExact : (r : RealmSizing) (inst : ℕ) → IsExact (cpu_cores r inst)
unfolding cpu_cores
cpu_cores-IsExact r inst = add_load-IsExact 120 inst r.refresh_token_grants_per_second _ (
    add_load-IsExact 120 inst r.client_credentials_grants_per_second _
      (add_load-IsExact 15 inst r.logins_per_second 0 zero-IsExact))

pub cpu_request-monotone : (a b : Float) → a ≤ b → cpu_request a ≤ cpu_request b
unfolding cpu_request
cpu_request-monotone a b h =
    truncate-monotone (mul a (of_nat 1000)) (mul b (of_nat 1000))
      (mul-monotone a (of_nat 1000) b (of_nat 1000) h (omega arith))

abbrev pub headroom : Float
headroom = div (of_nat 5) (of_nat 2)

pub cpu_limit-monotone : (a b : Float) → a ≤ b → cpu_limit a ≤ cpu_limit b
unfolding cpu_limit
cpu_limit-monotone a b h =
    truncate-monotone (mul (mul a headroom) (of_nat 1000)) (mul (mul b headroom) (of_nat 1000)) (
      mul-monotone (mul a headroom) (of_nat 1000) (mul b headroom) (of_nat 1000)
        (mul-monotone a headroom b headroom h (omega arith)) (omega arith))

one-headroom : one ≤ headroom
one-headroom = one-div 5 2 (omega arith) (omega arith)

pub cpu_request-cpu_limit : (a : Float) → IsExact a → cpu_request a ≤ cpu_limit a
unfolding cpu_request cpu_limit
cpu_request-cpu_limit a exact =
    truncate-monotone (mul a (of_nat 1000)) (mul (mul a headroom) (of_nat 1000)) (
      mul-monotone a (of_nat 1000) (mul a headroom) (of_nat 1000)
        (mul-no_less a headroom exact one-headroom) (omega arith))
