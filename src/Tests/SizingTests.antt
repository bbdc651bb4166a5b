-- ===== src/Tests/SizingTests.antt =====
-- The table of api/v1alpha1/sizing_test.go, run on the model.
use rhbk_operator.Prelude.{ℕ, ◌≡◌, ◌≤◌, arith, refl, Bool, false, true, some, [], ◌∷◌, ◌*◌}
use rhbk_operator.Kube.Pod.{milli, binary}
use rhbk_operator.Api.Types.{RealmSizing}
use rhbk_operator.Api.Sizing.Whole.{IsWhole, calculate_resource_limits-whole}
use rhbk_operator.Api.Sizing.Bounds.{
  millis, calculate_resource_limits-grows, calculate_resource_limits-within,
}
use rhbk_operator.Api.Sizing.{
  effective_instances, cpu_cores, cpu_request, cpu_limit, memory_limit, calculate_resource_limits,
}
use rhbk_operator.Prelude.Maps.{lookup}

abbrev sized : ℕ → ℕ → ℕ → Bool → RealmSizing
sized logins clients tokens disable = record {
  logins_per_second = logins;
  client_credentials_grants_per_second = clients;
  refresh_token_grants_per_second = tokens;
  cached_sessions = 0;
  disable_cpu_limits = disable;
}

official_example : calculate_resource_limits (sized 45 360 360 false) (some 3) ≡ record {
  requests = ("cpu", milli 3000) ∷ ("memory", binary (1250 * 1024 * 1024)) ∷ [];
  limits = ("memory", binary (1360 * 1024 * 1024)) ∷ ("cpu", milli 7500) ∷ [];
}
unfolding calculate_resource_limits cpu_cores cpu_request cpu_limit memory_limit
    rhbk_operator.Prelude.Maps.insert
official_example = refl

abbrev light : RealmSizing
light = sized 45 360 360 false

abbrev heavy : RealmSizing
heavy = sized 46 360 400 false

calculate_resource_limits-grows_example :
    let less = calculate_resource_limits light (some 3) in
    let more = calculate_resource_limits heavy (some 3) in
    (millis (lookup "cpu" less.requests) ≤ millis (lookup "cpu" more.requests))
    × (millis (lookup "cpu" less.limits) ≤ millis (lookup "cpu" more.limits))
calculate_resource_limits-grows_example =
    calculate_resource_limits-grows light heavy (some 3) (omega arith) refl

calculate_resource_limits-within_example :
    let resources = calculate_resource_limits heavy (some 3) in
    millis (lookup "cpu" resources.requests) ≤ millis (lookup "cpu" resources.limits)
calculate_resource_limits-within_example = calculate_resource_limits-within heavy (some 3) refl

light-IsWhole : IsWhole light (effective_instances (some 3)) 1 1 1
unfolding effective_instances
light-IsWhole = record {
  logins = refl;
  clients = refl;
  tokens = refl;
  few_logins = omega arith;
  few_clients = omega arith;
  few_tokens = omega arith;
}

calculate_resource_limits-whole_example :
    let resources = calculate_resource_limits light (some 3) in
    (lookup "cpu" resources.requests ≡ some (milli 3000))
    × (lookup "cpu" resources.limits ≡ some (milli 7500))
calculate_resource_limits-whole_example =
    calculate_resource_limits-whole light (some 3) 1 1 1 light-IsWhole
