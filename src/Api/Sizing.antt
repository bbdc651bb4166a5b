-- ===== src/Api/Sizing.antt =====
-- api/v1alpha1/sizing.go: the resources of one instance, and the sum of sizings.
pub mod Laws
pub mod Order
pub mod Bounds
pub mod Whole
use rhbk_operator.Prelude.{
  ℕ, ◌+◌, ◌-◌, ◌*◌, ◌%◌, ◌^◌, Bool, false, ◌&&◌, Option, none, some, List, [], ◌∷◌, ltb,
  if◌then◌else◌,
}
use rhbk_operator.Prelude.Maps.{insert}
use rhbk_operator.Kube.Meta.{Int32}
use rhbk_operator.Kube.Pod.{ResourceRequirements, milli, binary}
use rhbk_operator.Api.Types.{RealmSizing}
use rhbk_operator.Api.Float.{Float, one, of_nat, add, mul, div, ceil, truncate, round_ratio}

-- `x > 0` on an int32
abbrev pub is_positive : Int32 → Bool
is_positive x = ltb 0 x && ltb x (2 ^ 31)

-- The local `inst`.
unfoldable pub effective_instances : Option Int32 → ℕ
effective_instances none = 1
effective_instances (some instances) = if is_positive instances then instances else 1

-- One `if r.… > 0 { cpuCores += float64(r.…) / (per_core * float64(inst)) }`
unfoldable pub add_load : ℕ → ℕ → Int32 → Float → Float
unfolding of_nat add mul div
add_load per_core inst rate cpu_cores =
    if is_positive rate
    then add cpu_cores (div (of_nat rate) (mul (of_nat per_core) (of_nat inst)))
    else cpu_cores

-- The local `cpuCores`, after the three additions.
unfoldable pub cpu_cores : RealmSizing → ℕ → Float
unfolding add_load
cpu_cores r inst = add_load 120 inst r.refresh_token_grants_per_second (
    add_load 120 inst r.client_credentials_grants_per_second
      (add_load 15 inst r.logins_per_second 0))

-- int64(cpuCores * 1000)
unfoldable pub cpu_request : Float → ℕ
unfolding mul of_nat truncate
cpu_request cores = truncate (mul cores (of_nat 1000))

-- int64(cpuCores * 2.5 * 1000)
unfoldable pub cpu_limit : Float → ℕ
unfolding mul div of_nat truncate
cpu_limit cores = truncate (mul (mul cores (div (of_nat 5) (of_nat 2))) (of_nat 1000))

abbrev pub base_memory : ℕ
base_memory = 1250

abbrev pub non_heap_memory : ℕ
non_heap_memory = 300

-- The local `memoryLimitFloat`; 0.7 is the nearest float64.
unfoldable pub memory_limit_float : Float
unfolding div of_nat round_ratio one
memory_limit_float = div (of_nat (base_memory - non_heap_memory)) (round_ratio (7 * one) 10)

-- int64(math.Ceil(memoryLimitFloat/10)*10)
unfoldable pub memory_limit : ℕ
unfolding memory_limit_float truncate mul ceil div of_nat
memory_limit = truncate (mul (ceil (div memory_limit_float (of_nat 10))) (of_nat 10))

unfoldable pub calculate_resource_limits : RealmSizing → Option Int32 → ResourceRequirements
unfolding effective_instances
calculate_resource_limits r instances =
    let cores = cpu_cores r (effective_instances instances) in
    let memory = binary (memory_limit * 1024 * 1024) in
    record {
      requests =
          ("cpu", milli (cpu_request cores)) ∷ ("memory", binary (base_memory * 1024 * 1024)) ∷ [];
      limits =
          if r.disable_cpu_limits
          then ("memory", memory) ∷ []
          else insert "cpu" (milli (cpu_limit cores)) (("memory", memory) ∷ []);
    }

-- int32 addition wraps.
abbrev pub add_int32 : Int32 → Int32 → Int32
add_int32 a b = (a + b) % 2 ^ 32

-- `sum.… += s.…` for the four numbers; the flag of the sum is not touched.
unfoldable pub add_sizing : RealmSizing → RealmSizing → RealmSizing
add_sizing sum s = record sum {
  logins_per_second = add_int32 sum.logins_per_second s.logins_per_second;
  client_credentials_grants_per_second =
      add_int32 sum.client_credentials_grants_per_second s.client_credentials_grants_per_second;
  refresh_token_grants_per_second =
      add_int32 sum.refresh_token_grants_per_second s.refresh_token_grants_per_second;
  cached_sessions = add_int32 sum.cached_sessions s.cached_sessions;
}

abbrev pub zero_sizing : RealmSizing
zero_sizing = record {
  logins_per_second = 0;
  client_credentials_grants_per_second = 0;
  refresh_token_grants_per_second = 0;
  cached_sessions = 0;
  disable_cpu_limits = false;
}

-- One round of the loop: a nil sizing counts as the default, or not at all if that is nil too.
unfoldable pub add_or_default : RealmSizing → Option RealmSizing → Option RealmSizing → RealmSizing
unfolding add_sizing
add_or_default sum (some s) default = add_sizing sum s
add_or_default sum none (some default) = add_sizing sum default
add_or_default sum none none = sum

unfoldable pub sum_from : RealmSizing → List (Option RealmSizing) → Option RealmSizing → RealmSizing
unfolding add_or_default
sum_from sum [] default = sum
sum_from sum (s ∷ sizings) default = sum_from (add_or_default sum s default) sizings default

unfoldable pub sum_sizing : List (Option RealmSizing) → Option RealmSizing → RealmSizing
unfolding sum_from
sum_sizing sizings default = sum_from zero_sizing sizings default
