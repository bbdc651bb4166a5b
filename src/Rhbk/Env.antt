-- ===== src/Rhbk/Env.antt =====
-- The environment of the Keycloak container: `getENV` and `DecorateENV` of
-- internal/resources/rhbk/statefulset.go.
pub mod Overrides
use rhbk_operator.Prelude.{
  String, Bool, true, false, Option, none, some, List, [], ◌∷◌, ◌++◌, ◌==◌, if◌then◌else◌,
  format_bool,
}
use rhbk_operator.Kube.Pod.{EnvVar, env_value}
use rhbk_operator.Api.Types.{
  SecretOption, SecretOptionVar, NetworkConfig, PostgresDatabase, KeycloakSpec,
}
use rhbk_operator.Resources.Env.{add_or_replace_env}

-- `getENV(name, selector)`: a secret reference goes before a plain value.
unfoldable pub get_env : String → SecretOption → EnvVar
get_env name selector = elim selector.secret [
  | none ↦ env_value name selector.value
  | some secret ↦ record {
    name = name;
    value = "";
    value_from = some (record { secret_key_ref = some secret });
  }
]

-- The first block of `DecorateENV`.
unfoldable pub database_env : Option PostgresDatabase → List EnvVar
unfolding get_env
database_env none = []
database_env (some database) =
    env_value "KC_DB" "postgres"
    ∷ get_env "KC_DB_USERNAME" database.user
    ∷ get_env "KC_DB_PASSWORD" database.password
    ∷ get_env "KC_DB_URL_HOST" database.host
    ∷ get_env "KC_DB_URL_PORT" database.port
    ∷ env_value "KC_DB_POOL_INITIAL_SIZE" "30"
    ∷ env_value "KC_DB_POOL_MIN_SIZE" "30"
    ∷ env_value "KC_DB_POOL_MAX_SIZE" "30"
    ∷ []

-- `ks.Keycloak.Spec.NetworkConfig != nil && ks.Keycloak.Spec.NetworkConfig.Proxy`
unfoldable pub is_proxy : Option NetworkConfig → Bool
is_proxy none = false
is_proxy (some config) = config.proxy

-- The second block.
unfoldable pub network_env : Bool → List EnvVar
network_env true =
    env_value "KC_HOSTNAME_STRICT" (format_bool false)
    ∷ env_value "KC_PROXY_HEADERS" "xforwarded"
    ∷ []
network_env false =
    env_value "KC_HOSTNAME_STRICT" (format_bool true)
    ∷ env_value "KC_HTTP_ENABLED" (format_bool false)
    ∷ env_value "KC_PROXY_HEADERS" "xforwarded"
    ∷ []

-- The local `replacement`: a plain value goes before a secret reference.
unfoldable pub replacement : SecretOptionVar → EnvVar
replacement env =
    if env.value == ""
    then (elim env.secret [
      | none ↦ env_value env.name ""
      | some secret ↦ record {
        name = env.name;
        value = "";
        value_from = some (record { secret_key_ref = some secret });
      }
    ])
    else env_value env.name env.value

-- The loop over `AdditionalOptions`.
unfoldable pub add_options : List SecretOptionVar → List EnvVar → List EnvVar
unfolding replacement
add_options [] vars = vars
add_options (env ∷ options) vars = add_options options (add_or_replace_env (replacement env) vars)

unfoldable pub decorate_env : KeycloakSpec → List EnvVar → List EnvVar
unfolding add_options
decorate_env spec vars =
    add_options spec.additional_options
      (vars ++ (database_env spec.database ++ network_env (is_proxy spec.network_config)))
