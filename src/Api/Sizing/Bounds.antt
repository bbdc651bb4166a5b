-- ===== src/Api/Sizing/Bounds.antt =====
-- The CPU of the resources that are returned: the larger load has no smaller one, and the request is
-- within the limit.
use rhbk_operator.Prelude.{
  ℕ, ◌≤◌, ◌≡◌, arith, refl, ap, ◌∙◌, true, false, Bool-cases, inl, inr, Option, some,
}
use rhbk_operator.Prelude.Maps.{lookup}
use rhbk_operator.Kube.Meta.{Int32}
use rhbk_operator.Kube.Pod.{Quantity, ResourceRequirements, milli}
use rhbk_operator.Api.Types.{RealmSizing}
use rhbk_operator.Api.Float.{Float}
use rhbk_operator.Api.Sizing.{
  effective_instances, cpu_cores, cpu_request, cpu_limit, calculate_resource_limits,
}
use rhbk_operator.Api.Sizing.Laws.{calculate_resource_limits_lem}
use rhbk_operator.Api.Sizing.Order.{
  CarriesNoMore, instances-positive, cpu_cores-monotone, cpu_cores-IsExact, cpu_request-monotone,
  cpu_limit-monotone, cpu_request-cpu_limit,
}

-- Thousandths of a core.
abbrev pub millis : Option Quantity → ℕ
millis (some (milli n)) = n
millis _ = 0

module _ (r : RealmSizing) (instances : Option Int32) where
  abbrev cores : Float
  cores = cpu_cores r (effective_instances instances)

  abbrev resources : ResourceRequirements
  resources = calculate_resource_limits r instances

  requested : millis (lookup "cpu" resources.requests) ≡ cpu_request cores
  requested = ap millis (calculate_resource_limits_lem r instances).2

  limited : r.disable_cpu_limits ≡ false → millis (lookup "cpu" resources.limits) ≡ cpu_limit cores
  limited e = ap millis ((calculate_resource_limits_lem r instances).3) ∙ rw e refl

  unlimited : r.disable_cpu_limits ≡ true → millis (lookup "cpu" resources.limits) ≡ 0
  unlimited e = ap millis ((calculate_resource_limits_lem r instances).3) ∙ rw e refl

-- Of two sizings with the same flag, on the same instances, where the second carries no less in each of
-- the three rates and none is negative: the second has neither a smaller CPU request nor a smaller CPU
-- limit, with every rounding of the float64 arithmetic.
pub calculate_resource_limits-grows :
    (r s : RealmSizing) (instances : Option Int32)
    → CarriesNoMore r s
    → r.disable_cpu_limits ≡ s.disable_cpu_limits
    → let less = calculate_resource_limits r instances in
      let more = calculate_resource_limits s instances in
      (millis (lookup "cpu" less.requests) ≤ millis (lookup "cpu" more.requests))
      × (millis (lookup "cpu" less.limits) ≤ millis (lookup "cpu" more.limits))
calculate_resource_limits-grows r s instances h same =
    let inst = effective_instances instances in
    let grown = cpu_cores-monotone r s inst (instances-positive instances) h in
    (
      omega (
        arith,
        requested r instances,
        requested s instances,
        cpu_request-monotone (cpu_cores r inst) (cpu_cores s inst) grown,
      ),
      elim (Bool-cases s.disable_cpu_limits) [
        | inl e ↦ omega (arith, unlimited r instances (same ∙ e), unlimited s instances e)
        | inr e ↦ omega (
          arith,
          limited r instances (same ∙ e),
          limited s instances e,
          cpu_limit-monotone (cpu_cores r inst) (cpu_cores s inst) grown,
        )
      ],
    )

-- Where the CPU limit is not disabled, the CPU that is requested is within it, whatever the rates and
-- the instances are.
pub calculate_resource_limits-within :
    (r : RealmSizing) (instances : Option Int32)
    → r.disable_cpu_limits ≡ false
    → let resources = calculate_resource_limits r instances in
      millis (lookup "cpu" resources.requests) ≤ millis (lookup "cpu" resources.limits)
calculate_resource_limits-within r instances e =
    let inst = effective_instances instances in
    omega (
      arith,
      requested r instances,
      limited r instances e,
      cpu_request-cpu_limit (cpu_cores r inst) (cpu_cores-IsExact r inst),
    )
