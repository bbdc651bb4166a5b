-- ===== src/Realm/InitContainer.antt =====
-- `GetInitContainer` of internal/resources/realm/providers_import_init_container.go.
use rhbk_operator.Prelude.{
  String, false, none, some, List, [], ◌∷◌, ◌++◌, ◌==◌, if◌then◌else◌, concat,
}
use rhbk_operator.Prelude.Outcome.{Outcome, ok, ◌>>=◌}
use rhbk_operator.Kube.Pod.{EnvVar, Container, env_value}
use rhbk_operator.Api.Types.{Provider, Keycloak}
use rhbk_operator.Resources.Constants.{trusted_ca_volume, trusted_ca_volume_mount_path}
use rhbk_operator.Realm.Names.{busybox_image, providers_path}
use rhbk_operator.Realm.EnvName.{convert_to_env_name}

-- The variable of one provider: a plain URL goes before a secret reference.
unfoldable pub provider_env : String → Provider → EnvVar
provider_env env_name p =
    if p.url.value == ""
    then record {
      name = env_name;
      value = "";
      value_from = some (record { secret_key_ref = p.url.secret });
    }
    else env_value env_name p.url.value

-- The loop over the providers: the variables and the command line, as far as they are built.
unfoldable pub add_providers : List Provider → List EnvVar → String → Outcome (List EnvVar × String)
unfolding convert_to_env_name provider_env
add_providers [] env run_arg = ok (env, run_arg)
add_providers (p ∷ providers) env run_arg = do
  env_name ← convert_to_env_name p.name
  add_providers providers (env ++ provider_env env_name p ∷ [])
      (concat (run_arg ∷ " -o " ∷ providers_path ∷ "/" ∷ p.name ∷ " $(" ∷ env_name ∷ ")" ∷ []))

abbrev fetch_command : String
fetch_command = concat (
    "mkdir -p " ∷ providers_path ∷ "; curl -LJ --show-error --cacert "
    ∷ trusted_ca_volume_mount_path ∷ "/ca-bundle.crt" ∷ [])

unfoldable pub get_init_container : Keycloak → Outcome (List Container)
unfolding add_providers
get_init_container cr = elim cr.spec.providers [
  | [] ↦ ok []
  | p ∷ providers ↦ do
    (env, run_arg) ← add_providers (p ∷ providers) [] fetch_command
    ok (
        record {
          name = "fetch";
          image = busybox_image;
          image_pull_policy = "";
          command = "/bin/bash" ∷ [];
          args = "-c" ∷ run_arg ∷ [];
          ports = [];
          env = env;
          resources = record { requests = []; limits = [] };
          liveness_probe = none;
          readiness_probe = none;
          startup_probe = none;
          volume_mounts =
              record { name = "providers"; mount_path = providers_path; read_only = false }
              ∷ record {
                name = trusted_ca_volume;
                mount_path = trusted_ca_volume_mount_path;
                read_only = false;
              }
              ∷ [];
        }
        ∷ [])
]
