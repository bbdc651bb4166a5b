-- ===== src/Api/Sizing/Whole.antt =====
-- The official sizing, a core for so many requests of a kind, where each of the rates is, on each
-- instance, what a whole number of cores takes: the code's float64 arithmetic gives just the sum of
-- these cores. (Rates that make up a whole number of cores only together may be rounded below it.)
use native.Mathlib.Nat.{mul-le-mul_right}
use rhbk_operator.Prelude.{
  ℕ, ◌+◌, ◌*◌, ◌^◌, ◌≤◌, ◌<◌, ◌≡◌, arith, ap, ◌∙◌, Bool-cases, inl, inr, Option, none, some,
  if◌then◌else◌,
}
use rhbk_operator.Prelude.Maps.{lookup}
use rhbk_operator.Kube.Meta.{Int32}
use rhbk_operator.Kube.Pod.{milli}
use rhbk_operator.Api.Types.{RealmSizing}
use rhbk_operator.Api.Float.{of_nat, add, mul, truncate}
use rhbk_operator.Api.Float.Whole.{
  whole, halves, of_nat-whole, add-whole, mul-whole, div-whole, div-halves, mul-halves,
  mul-halves-whole, truncate-whole, halves-whole,
}
use rhbk_operator.Api.Sizing.{
  is_positive, effective_instances, add_load, cpu_cores, cpu_request, cpu_limit,
  calculate_resource_limits,
}
use rhbk_operator.Api.Sizing.Laws.{calculate_resource_limits_lem}
use rhbk_operator.Api.Sizing.Order.{part, add_load-busy, add_load-idle, headroom}

effective_instances-bounds :
    (instances : Option Int32)
    → (0 < effective_instances instances) × (effective_instances instances < 2 ^ 31)
unfolding effective_instances
effective_instances-bounds none = (omega arith, omega arith)
effective_instances-bounds (some n) = ground arith

module _ (per_core inst : ℕ) (divisible : 0 < per_core * inst)
    (few : per_core * inst ≤ 2 ^ 53) where
  cores-within : (k : ℕ) → k ≤ per_core * inst * k
  cores-within k = omega (arith, mul-le-mul_right k divisible)

  part-whole :
      (k : ℕ)
      → per_core ≤ 2 ^ 53
      → inst ≤ 2 ^ 53
      → per_core * inst * k < 2 ^ 31
      → part per_core inst (per_core * inst * k) ≡ whole k
  part-whole k small small' bounded =
      let d = per_core * inst in
      rw
        (
          of_nat-whole (d * k) (omega (arith, bounded)),
          of_nat-whole per_core small,
          of_nat-whole inst small',
          mul-whole per_core inst few,
        )
        (div-whole d k divisible (omega (arith, bounded, cores-within k)))

  add_load-whole :
      (k n : ℕ) (rate : Int32)
      → per_core ≤ 2 ^ 53
      → inst ≤ 2 ^ 53
      → rate ≡ per_core * inst * k
      → rate < 2 ^ 31
      → n ≤ 2 ^ 52
      → add_load per_core inst rate (whole n) ≡ whole (n + k)
  add_load-whole k n rate small small' e bounded sum = elim (Bool-cases (is_positive rate)) [
    | inl b ↦
        add_load-busy per_core inst rate (whole n) b
        ∙ ap (λ (r : ℕ). add (whole n) (part per_core inst r)) e
        ∙ ap (λ (c : ℕ). add (whole n) c) (part-whole k small small' (omega (arith, e, bounded)))
        ∙ add-whole n k (omega (arith, sum, bounded, e, cores-within k))
    | inr b ↦
        let idle : rate ≡ 0 = ground arith in
        let nothing : k ≡ 0 = omega (arith, e, idle, cores-within k) in
        add_load-idle per_core inst rate (whole n) b ∙ ap whole (omega (arith, nothing))
  ]

cpu_request-whole : (n : ℕ) → n ≤ 2 ^ 40 → cpu_request (whole n) ≡ n * 1000
unfolding cpu_request
cpu_request-whole n few =
    rw (of_nat-whole 1000 (omega arith), mul-whole n 1000 (omega (arith, few)))
      (truncate-whole (n * 1000))

headroom-halves : headroom ≡ halves 5
headroom-halves =
    rw (of_nat-whole 5 (omega arith), of_nat-whole 2 (omega arith)) (div-halves 5 (omega arith))

scaled-whole : (n : ℕ) → n ≤ 2 ^ 40 → mul (mul (whole n) headroom) (of_nat 1000) ≡ whole (n * 2500)
scaled-whole n few =
    ap (λ (c : ℕ). mul (mul (whole n) c) (of_nat 1000)) headroom-halves
    ∙ ap (λ (c : ℕ). mul c (of_nat 1000)) (mul-halves n 5 (omega (arith, few)))
    ∙ ap (mul (halves (n * 5))) (of_nat-whole 1000 (omega arith))
    ∙ mul-halves-whole (n * 5) 1000 (omega (arith, few))
    ∙ ap halves (omega arith)
    ∙ halves-whole (n * 2500)

cpu_limit-whole : (n : ℕ) → n ≤ 2 ^ 40 → cpu_limit (whole n) ≡ n * 2500
unfolding cpu_limit
cpu_limit-whole n few = ap truncate (scaled-whole n few) ∙ truncate-whole (n * 2500)

-- Each rate is so many times what one core of each instance takes.
pub record IsWhole (r : RealmSizing) (inst a b c : ℕ) : Type 0 where
  pub logins : r.logins_per_second ≡ 15 * inst * a
  pub clients : r.client_credentials_grants_per_second ≡ 120 * inst * b
  pub tokens : r.refresh_token_grants_per_second ≡ 120 * inst * c
  pub few_logins : r.logins_per_second < 2 ^ 31
  pub few_clients : r.client_credentials_grants_per_second < 2 ^ 31
  pub few_tokens : r.refresh_token_grants_per_second < 2 ^ 31

module _ (r : RealmSizing) (inst a b c : ℕ) (h : IsWhole r inst a b c)
    (bounds : (0 < inst) × (inst < 2 ^ 31)) where
  cores-few : a + b + c ≤ 2 ^ 40
  cores-few = omega (
    arith,
    h.few_logins,
    h.few_clients,
    h.few_tokens,
    h.logins,
    h.clients,
    h.tokens,
    bounds,
    mul-le-mul_right a bounds.0,
    mul-le-mul_right b bounds.0,
    mul-le-mul_right c bounds.0,
  )

  cpu_cores-whole : cpu_cores r inst ≡ whole (a + b + c)
  unfolding cpu_cores
  cpu_cores-whole =
      let small = cores-few in
      let first =
        add_load-whole 15 inst (omega (arith, bounds)) (omega (arith, bounds)) a 0
          r.logins_per_second (omega arith) (omega (arith, bounds)) h.logins h.few_logins
          (omega arith)
        ∙ ap whole {x = 0 + a} {y = a} (omega arith) in
      let second =
        add_load-whole 120 inst (omega (arith, bounds)) (omega (arith, bounds)) b a
          r.client_credentials_grants_per_second (omega arith) (omega (arith, bounds)) h.clients
          h.few_clients (omega (arith, small)) in
      let third =
        add_load-whole 120 inst (omega (arith, bounds)) (omega (arith, bounds)) c (a + b)
          r.refresh_token_grants_per_second (omega arith) (omega (arith, bounds)) h.tokens
          h.few_tokens (omega (arith, small)) in
      ap
        (λ (x : ℕ).
          add_load 120 inst r.refresh_token_grants_per_second
            (add_load 120 inst r.client_credentials_grants_per_second x))
        first
      ∙ ap (add_load 120 inst r.refresh_token_grants_per_second) second
      ∙ third

-- Where the rates are what a whole number of cores takes on each instance, 15 logins, 120 client
-- credentials and 120 refresh tokens a core, and no rate is negative: the code requests just as many
-- cores, and limits the CPU, unless that is disabled, to two and a half times as many.
pub calculate_resource_limits-whole :
    (r : RealmSizing) (instances : Option Int32) (a b c : ℕ)
    → IsWhole r (effective_instances instances) a b c
    → let resources = calculate_resource_limits r instances in
      (lookup "cpu" resources.requests ≡ some (milli ((a + b + c) * 1000)))
      × (lookup "cpu" resources.limits
          ≡ (if r.disable_cpu_limits then none else some (milli ((a + b + c) * 2500))))
calculate_resource_limits-whole r instances a b c h =
    let inst = effective_instances instances in
    let bounds = effective_instances-bounds instances in
    let cores = cpu_cores-whole r inst a b c h bounds in
    let few = cores-few r inst a b c h bounds in
    let (memory, limit, requests, limits) = calculate_resource_limits_lem r instances in
    let request : cpu_request (cpu_cores r inst) ≡ (a + b + c) * 1000 =
      ap cpu_request cores ∙ cpu_request-whole (a + b + c) few in
    let most : cpu_limit (cpu_cores r inst) ≡ (a + b + c) * 2500 =
      ap cpu_limit cores ∙ cpu_limit-whole (a + b + c) few in
    (
      requests ∙ ap (λ (n : ℕ). some (milli n)) request,
      limits ∙ ap (λ (n : ℕ). if r.disable_cpu_limits then none else some (milli n)) most,
    )
