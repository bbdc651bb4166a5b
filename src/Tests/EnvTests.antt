-- ===== src/Tests/EnvTests.antt =====
-- Containers, sizings, conditions and substitutions: the theorems on concrete inputs.
use rhbk_operator.Prelude.{
  String, ℕ, List, ◌*◌, ◌≡◌, ◌≢◌, refl, Bool, true, false, none, some, [], ◌∷◌,
}
use rhbk_operator.Prelude.Maps.{Map, lookup}
use rhbk_operator.Prelude.Outcome.{ok, panic}
use rhbk_operator.Kube.Pod.{milli, binary, env_value}
use rhbk_operator.Api.Types.{RealmSizing, SecretOptionVar, has_secret_reference}
use rhbk_operator.Api.Types.Panics.{has_secret_reference-panic}
use rhbk_operator.Api.Conditions.{set_ready, is_ready}
use rhbk_operator.Api.Conditions.Laws.{is_ready-set_ready}
use rhbk_operator.Api.Sizing.{
  calculate_resource_limits, sum_sizing, cpu_cores, cpu_request, effective_instances,
}
use rhbk_operator.Api.Sizing.Laws.{calculate_resource_limits_lem, sum_sizing_lem}
use rhbk_operator.Resources.Env.{add_or_replace_env}
use rhbk_operator.Resources.Env.Laws.{find_env, HasUniqueNames, find-add_or_replace}
use rhbk_operator.Rhbk.Env.{add_options}
use rhbk_operator.Rhbk.Env.Overrides.{find-add_options}
use rhbk_operator.Rhbk.StatefulSet.{keycloak_container}
use rhbk_operator.Rhbk.StatefulSet.EnvNames.{keycloak_container-HasUniqueNames}
use rhbk_operator.Realm.ImportJob.{job_env}
use rhbk_operator.Realm.ImportJob.Env.{find-job_env}
use rhbk_operator.Tests.World.{conditions_lib, conditions_laws}
use rhbk_operator.Tests.Cluster.{keycloak, import_in, container, selector, client}
use rhbk_operator.Kube.Meta.{Key, named}
use rhbk_operator.Kube.Objects.{Secret}
use rhbk_operator.Kube.Client.{Client}
use rhbk_operator.Realm.EnvName.{convert_to_env_name}
use rhbk_operator.Realm.EnvName.Laws.{every, is_env, first_is_digit, convert_to_env_name_lem}
use rhbk_operator.Realm.ImportSecret.{fetch_substitutions}
use rhbk_operator.Realm.ImportSecret.Substitutions.{substituted, fetch_substitutions_lem}
use rhbk_operator.Tests.Jobs.{differ}

find-add_or_replace_example :
    find_env "KC_DB" (add_or_replace_env (env_value "KC_CACHE" "local") container.env)
    ≡ some (env_value "KC_DB" "postgres")
unfolding find_env
find-add_or_replace_example =
    find-add_or_replace (env_value "KC_CACHE" "local") "KC_DB" container.env

find-add_options_example :
    find_env "KC_CACHE" (add_options keycloak.spec.additional_options container.env)
    ≡ some (env_value "KC_CACHE" "local")
unfolding rhbk_operator.Rhbk.Env.Overrides.last_option rhbk_operator.Rhbk.Env.replacement
find-add_options_example =
    find-add_options "KC_CACHE" keycloak.spec.additional_options container.env

keycloak_container-HasUniqueNames_example :
    HasUniqueNames (keycloak_container keycloak "sso.example.org").env
keycloak_container-HasUniqueNames_example =
    keycloak_container-HasUniqueNames keycloak "sso.example.org"

find-job_env_example :
    find_env "KC_CACHE" (job_env container.env) ≡ some (env_value "KC_CACHE" "local")
unfolding find_env
find-job_env_example = find-job_env "KC_CACHE" container.env

is_ready-set_ready_example :
    is_ready conditions_lib (set_ready conditions_lib 5 "False" [] keycloak.conditions) ≡ false
is_ready-set_ready_example =
    is_ready-set_ready conditions_lib conditions_laws 5 "False" [] keycloak.conditions

has_secret_reference-panic_example :
    has_secret_reference (import_in "team-a").spec "other-secret" ≡ panic
has_secret_reference-panic_example =
    has_secret_reference-panic (import_in "team-a").spec
      (record { name = "PASSWORD"; value = ""; secret = some selector } ∷ []) []
      (record { name = "PLAIN"; value = "x"; secret = none }) "other-secret" refl
      ((selector, refl, differ _ _ refl), tt) refl

abbrev sized : Bool → RealmSizing
sized disable = record {
  logins_per_second = 45;
  client_credentials_grants_per_second = 360;
  refresh_token_grants_per_second = 360;
  cached_sessions = 4294967295;
  disable_cpu_limits = disable;
}

calculate_resource_limits_example :
    let resources = calculate_resource_limits (sized true) (some 3) in
    (lookup "memory" resources.requests ≡ some (binary (1250 * 1024 * 1024)))
    × (lookup "memory" resources.limits ≡ some (binary (1360 * 1024 * 1024)))
    × (lookup "cpu" resources.requests
        ≡ some (milli (cpu_request (cpu_cores (sized true) (effective_instances (some 3))))))
    × (lookup "cpu" resources.limits ≡ none)
calculate_resource_limits_example = calculate_resource_limits_lem (sized true) (some 3)

sum_sizing_example :
    let sum = sum_sizing (none ∷ some (sized true) ∷ []) (some (sized false)) in
    (sum.logins_per_second ≡ 90)
    × (sum.client_credentials_grants_per_second ≡ 720)
    × (sum.refresh_token_grants_per_second ≡ 720)
    × (sum.cached_sessions ≡ 4294967294)
    × (sum.disable_cpu_limits ≡ false)
sum_sizing_example = sum_sizing_lem (none ∷ some (sized true) ∷ []) (some (sized false))

convert_to_env_name_example :
    (name : String) × (convert_to_env_name "2fa-provider" ≡ ok name)
    × (name ≢ "")
    × (every is_env name ≡ true)
    × (first_is_digit name ≡ false)
convert_to_env_name_example = convert_to_env_name_lem "2fa-provider" (differ _ _ refl)

-- Every secret of the world holds one password.
abbrev stored : Key → Secret
stored key = record { meta = named key.name key.namespace; contents = ("password", "a\"b") ∷ [] }

abbrev readable : Client ℕ
readable = record client { get_secret = λ key requests. (ok (stored key), requests) }

abbrev fetched : List SecretOptionVar
fetched = record { name = "PASSWORD"; value = ""; secret = some selector } ∷ []

fetch_substitutions_example :
    (m : Map String) × (fetch_substitutions readable (import_in "team-a") fetched [] 0 ≡ (ok m, 0))
    × ((name : String)
        → lookup name m ≡ substituted stored (import_in "team-a") name fetched (lookup name []))
fetch_substitutions_example =
    fetch_substitutions_lem readable stored (import_in "team-a") (λ key requests. refl) fetched [] 0
      ((selector, refl), tt)
