-- ===== src/Rhbk/StatefulSet.antt =====
-- internal/resources/rhbk/statefulset.go: the pods that run Keycloak.
pub mod EnvNames
use rhbk_operator.Prelude.{
  ℕ, String, true, false, none, some, List, [], ◌∷◌, ◌++◌, concat, format_bool,
}
use rhbk_operator.Prelude.Maps.{insert}
use rhbk_operator.Prelude.Outcome.{Outcome, ok, ◌>>=◌}
use rhbk_operator.Kube.Meta.{Meta, named}
use rhbk_operator.Kube.Pod.{
  EnvVar, env_value, Volume, VolumeMount, secret, config_map, empty_dir, ResourceRequirements,
  must_parse, Probe, Container, PodTemplate,
}
use rhbk_operator.Kube.Objects.{StatefulSet}
use rhbk_operator.Kube.Libs.{Libs}
use rhbk_operator.Api.Types.{Keycloak, KeycloakSpec}
use rhbk_operator.Api.Sizing.{calculate_resource_limits}
use rhbk_operator.Resources.Constants.{
  rhbk_container_name, trusted_ca_volume, trusted_ca_volume_mount_path,
}
use rhbk_operator.Resources.Labels.{decorate_default_labels}
use rhbk_operator.Realm.Names.{providers_path}
use rhbk_operator.Realm.InitContainer.{get_init_container}
use rhbk_operator.Rhbk.Env.{get_env, decorate_env}
use rhbk_operator.Rhbk.Names.{
  rhbk_image, https_port, management_port, get_tls_secret_name, get_discovery_svc_name,
  get_stateful_set_name,
}

unfoldable pub decorate_volume : KeycloakSpec → List Volume → List Volume
decorate_volume spec vl = elim spec.trusted_ca_bundles [
  | some bundle ↦
      vl
      ++ record { name = trusted_ca_volume; source = config_map bundle (some 420) (some true) } ∷ []
  | none ↦ vl ++ record { name = trusted_ca_volume; source = empty_dir } ∷ []
]

unfoldable pub decorate_volume_mounts : List VolumeMount → List VolumeMount
decorate_volume_mounts mounts = mounts

unfoldable pub decorate_sizing : KeycloakSpec → ResourceRequirements
decorate_sizing spec = elim spec.sizing [
  | none ↦ record {
    requests = ("memory", must_parse "1700Mi") ∷ [];
    limits = ("memory", must_parse "2Gi") ∷ [];
  }
  | some sizing ↦ calculate_resource_limits sizing spec.instances
]

-- The list that `Build` hands to `DecorateENV`.
unfoldable pub base_env : Keycloak → String → List EnvVar
unfolding get_env
base_env keycloak host_name =
    env_value "KC_HOSTNAME" host_name
    ∷ env_value "KC_HTTPS_PORT" "8443"
    ∷ env_value "KC_HTTP_MANAGEMENT_PORT" "9000"
    ∷ env_value "KC_HEALTH_ENABLED" (format_bool true)
    ∷ env_value "KC_CACHE" "ispn"
    ∷ env_value "KC_CACHE_STACK" "kubernetes"
    ∷ get_env "KC_BOOTSTRAP_ADMIN_USERNAME" keycloak.spec.admin.username
    ∷ get_env "KC_BOOTSTRAP_ADMIN_PASSWORD" keycloak.spec.admin.password
    ∷ env_value "KC_TRUSTSTORE_PATHS"
        "conf/truststores,/var/run/secrets/kubernetes.io/serviceaccount/ca.crt,/var/run/secrets/kubernetes.io/serviceaccount/service-ca.crt"
    ∷ env_value "KC_TRACING_SERVICE_NAME" keycloak.meta.name
    ∷ env_value "KC_TRACING_RESOURCE_ATTRIBUTES"
        (concat ("k8s.namespace.name=" ∷ keycloak.meta.namespace ∷ []))
    ∷ env_value "KC_METRICS_ENABLED" (format_bool true)
    ∷ env_value "KC_HTTPS_CERTIFICATE_FILE" "/mnt/certificates/tls.crt"
    ∷ env_value "KC_HTTPS_CERTIFICATE_KEY_FILE" "/mnt/certificates/tls.key"
    ∷ []

abbrev probe : String → ℕ → ℕ → Probe
probe path period_seconds failure_threshold = record {
  path = path;
  port = management_port;
  scheme = "HTTPS";
  period_seconds = period_seconds;
  failure_threshold = failure_threshold;
}

-- The Keycloak container of the template.
unfoldable pub keycloak_container : Keycloak → String → Container
unfolding base_env decorate_env decorate_sizing decorate_volume_mounts
keycloak_container keycloak host_name = record {
  name = rhbk_container_name;
  image = rhbk_image;
  image_pull_policy = "Always";
  command = [];
  args =
      concat (
        "-Djgroups.dns.query="
        ∷ get_discovery_svc_name keycloak
        ∷ "."
        ∷ keycloak.meta.namespace
        ∷ [])
      ∷ "--verbose"
      ∷ "start"
      ∷ [];
  ports =
      record { name = "https"; container_port = https_port; protocol = "TCP" }
      ∷ record { name = "http"; container_port = management_port; protocol = "TCP" }
      ∷ [];
  env = decorate_env keycloak.spec (base_env keycloak host_name);
  resources = decorate_sizing keycloak.spec;
  liveness_probe = some (probe "/health/live" 10 3);
  readiness_probe = some (probe "/health/ready" 10 3);
  startup_probe = some (probe "/health/started" 1 600);
  volume_mounts = decorate_volume_mounts (
      record {
        name = "keycloak-tls-certificates";
        mount_path = "/mnt/certificates";
        read_only = false;
      }
      ∷ record { name = "providers"; mount_path = providers_path; read_only = false }
      ∷ record {
        name = trusted_ca_volume;
        mount_path = trusted_ca_volume_mount_path;
        read_only = true;
      }
      ∷ []);
}

-- The template: the annotations are those that the object had before.
unfoldable pub pod_template : Keycloak → String → StatefulSet → List Container → PodTemplate
unfolding keycloak_container decorate_volume insert
pod_template keycloak host_name resource init_containers = record {
  labels = some (insert "app" "rhbk" []);
  annotations = resource.spec.template.annotations;
  init_containers = init_containers;
  containers = keycloak_container keycloak host_name ∷ [];
  volumes = decorate_volume keycloak.spec (
      record {
        name = "keycloak-tls-certificates";
        source = secret (get_tls_secret_name keycloak) (some 420) (some false);
      }
      ∷ record { name = "providers"; source = empty_dir }
      ∷ []);
  restart_policy = "";
}

-- The object that `ks.Build()` fills in: the labels and the whole `spec`; the status stays.
unfoldable pub fill_in : Keycloak → String → StatefulSet → List Container → Meta → StatefulSet
unfolding pod_template insert
fill_in keycloak host_name resource init_containers owned = record {
  meta = owned;
  spec = record {
    replicas = keycloak.spec.instances;
    match_labels = insert "app" "rhbk" [];
    update_strategy = "RollingUpdate";
    partition = 0;
    revision_history_limit = 10;
    min_ready_seconds = 0;
    when_deleted = "Retain";
    when_scaled = "Retain";
    template = pod_template keycloak host_name resource init_containers;
  };
  status = resource.status;
}

-- `ks.Build()`, with `ks.HostName`.
unfoldable pub build : Libs → Keycloak → String → StatefulSet → Outcome StatefulSet
unfolding decorate_default_labels get_init_container fill_in
build libs keycloak host_name resource = do
  init_containers ← get_init_container keycloak
  owned ←
      libs.set_controller_reference keycloak.meta
        (record resource.meta { labels = decorate_default_labels (some []) })
  ok (fill_in keycloak host_name resource init_containers owned)

unfoldable pub start : Keycloak → Meta
start keycloak = named (get_stateful_set_name keycloak) keycloak.meta.namespace
