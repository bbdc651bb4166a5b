-- ===== src/Api/Sizing/Laws.antt =====
-- What the sizing promises whatever the load is, and the sum of sizings as a sum.
use rhbk_operator.Prelude.{
  ℕ, ◌+◌, ◌*◌, ◌%◌, ◌^◌, ◌≡◌, refl, ◌<◌, Bool-cases, inl, inr, false, Option, none, some, List, [],
  ◌∷◌, arith, if◌then◌else◌,
}
use rhbk_operator.Prelude.Maps.{lookup, insert}
use rhbk_operator.Kube.Meta.{Int32}
use rhbk_operator.Kube.Pod.{milli, binary}
use rhbk_operator.Api.Types.{RealmSizing}
use rhbk_operator.Api.Sizing.{
  effective_instances, cpu_cores, cpu_request, cpu_limit, memory_limit, calculate_resource_limits,
  add_sizing, add_or_default, sum_from, sum_sizing, zero_sizing,
}

-- The memory does not depend on the load: 1250Mi are requested, and (1250 - 300) / 0.7, rounded up to
-- the next multiple of ten, is the limit of 1360Mi. The CPU is requested always, and limited unless
-- the limit is disabled.
pub calculate_resource_limits_lem :
    (r : RealmSizing) (instances : Option Int32)
    → let cores = cpu_cores r (effective_instances instances) in
      let resources = calculate_resource_limits r instances in
      (lookup "memory" resources.requests ≡ some (binary (1250 * 1024 * 1024)))
      × (lookup "memory" resources.limits ≡ some (binary (1360 * 1024 * 1024)))
      × (lookup "cpu" resources.requests ≡ some (milli (cpu_request cores)))
      × (lookup "cpu" resources.limits
          ≡ (if r.disable_cpu_limits then none else some (milli (cpu_limit cores))))
unfolding calculate_resource_limits lookup insert memory_limit
calculate_resource_limits_lem r instances = elim (Bool-cases r.disable_cpu_limits) [
  | inl b ↦ (refl, rw b refl, refl, rw b refl)
  | inr b ↦ (refl, rw b refl, refl, rw b refl)
]

-- What an entry of the list counts for: its own number, the default's where it is nil, or nothing.
abbrev pub share : (RealmSizing → Int32) → Option RealmSizing → Option RealmSizing → ℕ
share number default (some s) = number s
share number (some d) none = number d
share number none none = 0

-- The sum over the list, which does not wrap.
abbrev pub total : (RealmSizing → Int32) → Option RealmSizing → List (Option RealmSizing) → ℕ
total number default [] = 0
total number default (s ∷ sizings) = share number default s + total number default sizings

module _ (number : RealmSizing → Int32)
    (adds : (a b : RealmSizing) → number (add_sizing a b) ≡ (number a + number b) % 2 ^ 32) where
  number-add_or_default :
      (sum : RealmSizing) (s default : Option RealmSizing)
      → number sum < 2 ^ 32
      → number (add_or_default sum s default) ≡ (number sum + share number default s) % 2 ^ 32
  unfolding add_or_default
  number-add_or_default sum (some s) default h = adds sum s
  number-add_or_default sum none (some d) h = adds sum d
  number-add_or_default sum none none h = omega (arith, h)

  number-sum_from :
      (sizings : List (Option RealmSizing)) (sum : RealmSizing) (default : Option RealmSizing)
      → number sum < 2 ^ 32
      → number (sum_from sum sizings default) ≡ (number sum + total number default sizings) % 2 ^ 32
  unfolding sum_from
  number-sum_from [] sum default h = omega (arith, h)
  number-sum_from (s ∷ sizings) sum default h =
      let one = number-add_or_default sum s default h in
      omega (
        arith,
        one,
        number-sum_from sizings (add_or_default sum s default) default (omega (arith, one)),
      )

  number-sum_sizing :
      (sizings : List (Option RealmSizing)) (default : Option RealmSizing)
      → number zero_sizing ≡ 0
      → number (sum_sizing sizings default) ≡ total number default sizings % 2 ^ 32
  unfolding sum_sizing
  number-sum_sizing sizings default z =
      omega (arith, z, number-sum_from sizings zero_sizing default (omega (arith, z)))

same_flag :
    (sizings : List (Option RealmSizing)) (sum : RealmSizing) (default : Option RealmSizing)
    → (sum_from sum sizings default).disable_cpu_limits ≡ sum.disable_cpu_limits
unfolding sum_from add_or_default add_sizing
same_flag [] sum default = refl
same_flag (some s ∷ sizings) sum default = same_flag sizings (add_sizing sum s) default
same_flag (none ∷ sizings) sum (some d) = same_flag sizings (add_sizing sum d) (some d)
same_flag (none ∷ sizings) sum none = same_flag sizings sum none

-- Each of the four numbers of a sum of sizings is the sum of what the entries count for, modulo
-- 2 ^ 32, and the sum does not disable the CPU limits, whatever the entries and the default say.
pub sum_sizing_lem :
    (sizings : List (Option RealmSizing)) (default : Option RealmSizing)
    → let sum = sum_sizing sizings default in
      let rated = λ (number : RealmSizing → Int32). total number default sizings % 2 ^ 32 in
      (sum.logins_per_second ≡ rated (λ s. s.logins_per_second))
      × (sum.client_credentials_grants_per_second
          ≡ rated (λ s. s.client_credentials_grants_per_second))
      × (sum.refresh_token_grants_per_second ≡ rated (λ s. s.refresh_token_grants_per_second))
      × (sum.cached_sessions ≡ rated (λ s. s.cached_sessions))
      × (sum.disable_cpu_limits ≡ false)
unfolding sum_sizing add_sizing
sum_sizing_lem sizings default = (
  number-sum_sizing (λ s. s.logins_per_second) (λ a b. refl) sizings default refl,
  number-sum_sizing (λ s. s.client_credentials_grants_per_second) (λ a b. refl) sizings default
      refl,
  number-sum_sizing (λ s. s.refresh_token_grants_per_second) (λ a b. refl) sizings default refl,
  number-sum_sizing (λ s. s.cached_sessions) (λ a b. refl) sizings default refl,
  same_flag sizings zero_sizing default,
)
