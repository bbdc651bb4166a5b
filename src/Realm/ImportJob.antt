-- ===== src/Realm/ImportJob.antt =====
-- internal/resources/realm/realm_import_job.go: the job that imports a realm. It runs the pod of the
-- stateful set once, with other variables, one more volume and another command.
pub mod Env
use rhbk_operator.Prelude.{
  String, true, Option, none, some, List, [], ◌∷◌, ◌++◌, ◌==◌, if◌then◌else◌, concat, format_bool,
}
use rhbk_operator.Prelude.Maps.{Map, lookup, insert}
use rhbk_operator.Prelude.Outcome.{Outcome, ok, panic, ◌>>=◌}
use rhbk_operator.Kube.Meta.{named}
use rhbk_operator.Kube.Pod.{EnvVar, env_value, secret, Container}
use rhbk_operator.Kube.Objects.{StatefulSet, Job}
use rhbk_operator.Api.Types.{KeycloakImport}
use rhbk_operator.Resources.Labels.{decorate_default_labels, get_owner_labels}
use rhbk_operator.Realm.Names.{
  get_import_job_name, get_import_job_secret_name, get_import_job_secret_volume_name,
  get_realm_mount_path, get_import_job_annotation,
}

-- The local `toModify`: "" takes the variable away.
unfoldable pub to_modify : Map String
to_modify = ("KC_CACHE", "local") ∷ ("KC_HEALTH_ENABLED", "false") ∷ ("KC_CACHE_STACK", "") ∷ []

-- One round of the loop: what it appends to `next`.
unfoldable pub modify_env : EnvVar → List EnvVar
unfolding to_modify lookup
modify_env v = elim (lookup v.name to_modify) [
  | none ↦ v ∷ []
  | some n ↦ if n == "" then [] else env_value v.name n ∷ []
]

unfoldable pub job_env : List EnvVar → List EnvVar
unfolding modify_env
job_env [] = []
job_env (v ∷ vars) = modify_env v ++ job_env vars

-- The local `ownerLabels`, after its two changes.
unfoldable pub job_labels : KeycloakImport → String → Option (Map String)
unfolding get_owner_labels decorate_default_labels
job_labels cr revision = decorate_default_labels (
    some (
      insert (get_import_job_annotation cr) revision
        (get_owner_labels cr.meta.name cr.meta.namespace)))

-- The first container of the template, changed to import the realm.
unfoldable pub import_container : KeycloakImport → Container → Container
unfolding job_env
import_container cr kc = record kc {
  env = job_env kc.env;
  volume_mounts =
      kc.volume_mounts
      ++ record {
        name = get_import_job_secret_volume_name cr;
        mount_path = "/mnt/realm-import";
        read_only = true;
      }
        ∷ [];
  readiness_probe = none;
  liveness_probe = none;
  startup_probe = none;
  command = "/bin/bash" ∷ [];
  args =
      "-c"
      ∷ concat (
          "/opt/keycloak/bin/kc.sh --verbose build && "
          ∷ "/opt/keycloak/bin/kc.sh --verbose import --optimized --file='"
          ∷ get_realm_mount_path cr
          ∷ "' --override="
          ∷ format_bool cr.spec.override_if_exists
          ∷ [])
      ∷ [];
}

-- `Containers[0]` is an index out of range where the template has no container.
unfoldable pub import_containers : KeycloakImport → List Container → Outcome (List Container)
unfolding import_container
import_containers cr [] = panic
import_containers cr (kc ∷ others) = ok (import_container cr kc ∷ others)

-- `Build(cr, sts, revision)`; its error is always nil.
unfoldable pub build : KeycloakImport → StatefulSet → String → Outcome Job
unfolding job_labels import_containers
build cr sts revision = do
  let template = sts.spec.template
  containers ← import_containers cr template.containers
  ok (record {
    meta = record (named (get_import_job_name cr) sts.meta.namespace) {
      labels = job_labels cr revision;
    };
    template = record template {
      labels = job_labels cr revision;
      containers = containers;
      volumes =
          template.volumes
          ++ record {
            name = get_import_job_secret_volume_name cr;
            source = secret (get_import_job_secret_name cr) none none;
          }
            ∷ [];
      restart_policy = "Never";
    };
    backoff_limit = 1;
    conditions = [];
  })
