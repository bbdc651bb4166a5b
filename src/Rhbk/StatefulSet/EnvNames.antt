-- ===== src/Rhbk/StatefulSet/EnvNames.antt =====
-- The variables of the Keycloak container have different names.
use rhbk_operator.Prelude.{
  String, ◌≡◌, Bool, true, false, not, ◌&&◌, Option, none, some, List, [], ◌∷◌, ◌++◌, map, arith,
  ◌==◌, eq_iff,
}
use rhbk_operator.Kube.Pod.{EnvVar}
use rhbk_operator.Api.Types.{SecretOption, SecretOptionVar, PostgresDatabase, Keycloak}
use rhbk_operator.Resources.Env.Laws.{Lacks, HasUniqueNames, HasUniqueNames-add_or_replace}
use rhbk_operator.Rhbk.Env.{
  get_env, database_env, is_proxy, network_env, replacement, add_options, decorate_env,
}
use rhbk_operator.Rhbk.StatefulSet.{base_env, keycloak_container}

abbrev names : List EnvVar → List String
names = map (λ v. v.name)

abbrev absent : String → List String → Bool
absent n [] = true
absent n (m ∷ ms) = not (m == n) && absent n ms

abbrev distinct : List String → Bool
distinct [] = true
distinct (n ∷ ns) = absent n ns && distinct ns

absent-Lacks : (n : String) (vars : List EnvVar) → absent n (names vars) ≡ true → Lacks n vars
absent-Lacks n [] h = tt
absent-Lacks n (v ∷ vars) h =
    (λ e. ground (arith, eq_iff v.name n), absent-Lacks n vars (ground arith))

distinct-HasUniqueNames : (vars : List EnvVar) → distinct (names vars) ≡ true → HasUniqueNames vars
distinct-HasUniqueNames [] h = tt
distinct-HasUniqueNames (v ∷ vars) h =
    (absent-Lacks v.name vars (ground arith), distinct-HasUniqueNames vars (ground arith))

name-get_env : (name : String) (selector : SecretOption) → (get_env name selector).name ≡ name
unfolding get_env
name-get_env name selector = ground arith

add_options-HasUniqueNames :
    (options : List SecretOptionVar) (vars : List EnvVar)
    → HasUniqueNames vars
    → HasUniqueNames (add_options options vars)
unfolding add_options
add_options-HasUniqueNames [] vars u = u
add_options-HasUniqueNames (o ∷ options) vars u =
    add_options-HasUniqueNames options _ (HasUniqueNames-add_or_replace (replacement o) vars u)

distinct-base :
    (keycloak : Keycloak) (host_name : String) (database : Option PostgresDatabase) (proxy : Bool)
    → distinct (names (base_env keycloak host_name ++ (database_env database ++ network_env proxy)))
      ≡ true
unfolding base_env database_env network_env
distinct-base keycloak host_name none true = simp name-get_env
distinct-base keycloak host_name none false = simp name-get_env
distinct-base keycloak host_name (some database) true = simp name-get_env
distinct-base keycloak host_name (some database) false = simp name-get_env

-- No variable of the Keycloak container stands twice, whatever options the custom resource adds.
pub keycloak_container-HasUniqueNames :
    (keycloak : Keycloak) (host_name : String)
    → HasUniqueNames (keycloak_container keycloak host_name).env
unfolding keycloak_container decorate_env
keycloak_container-HasUniqueNames keycloak host_name =
    add_options-HasUniqueNames keycloak.spec.additional_options vars (
      distinct-HasUniqueNames vars (
        distinct-base keycloak host_name keycloak.spec.database
          (is_proxy keycloak.spec.network_config)))
  where
    vars : List EnvVar
    vars =
        base_env keycloak host_name
        ++ (database_env keycloak.spec.database
            ++ network_env (is_proxy keycloak.spec.network_config))
