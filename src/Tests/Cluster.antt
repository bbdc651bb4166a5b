-- ===== src/Tests/Cluster.antt =====
-- A cluster for the tests, with the two custom resources: the world counts the requests.
use rhbk_operator.Prelude.{ℕ, ◌+◌, String, false, true, none, some, [], ◌∷◌}
use rhbk_operator.Prelude.Outcome.{Error, Outcome, ok, err}
use rhbk_operator.Kube.Meta.{Meta, named}
use rhbk_operator.Kube.Pod.{PodTemplate, Container, SecretKeySelector, env_value}
use rhbk_operator.Kube.Objects.{Service, Route, StatefulSet, Job}
use rhbk_operator.Kube.Exec.{Exec}
use rhbk_operator.Kube.Client.{Client}
use rhbk_operator.Api.Types.{SecretOption, Keycloak, KeycloakImport}

abbrev pub selector : SecretKeySelector
selector = record { name = "realm-secret"; key = "password"; optional = none }

abbrev pub plain : String → SecretOption
plain value = record { value = value; secret = none }

abbrev pub keycloak : Keycloak
keycloak = record {
  meta = named "sso" "auth";
  spec = record {
    database = none;
    additional_options =
        record { name = "KC_LOG_LEVEL"; value = "debug"; secret = none }
        ∷ record { name = "KC_CACHE"; value = "local"; secret = none }
        ∷ [];
    instances = some 2;
    trusted_ca_bundles = none;
    admin = record { username = plain "admin"; password = plain "secret" };
    providers = [];
    network_config = none;
    sizing = none;
  };
  conditions =
      record {
        kind = "ReconcileSuccess";
        status = "True";
        last_transition_time = 0;
        reason = "";
        message = "";
      }
      ∷ [];
}

abbrev pub import_in : String → KeycloakImport
import_in namespace = record {
  meta = record (named "shop" namespace) { finalizers = "rhbk.stakater.com/finalizer" ∷ [] };
  spec = record {
    keycloak_instance = record { namespace = "auth"; name = "sso" };
    json = "{}";
    substitutions =
        record { name = "PASSWORD"; value = ""; secret = some selector }
        ∷ record { name = "PLAIN"; value = "x"; secret = none }
        ∷ [];
    override_if_exists = false;
  };
  conditions = [];
}

-- An import whose substitutions all take their values from secrets.
abbrev pub shop : KeycloakImport
shop = record (import_in "team-a") {
  spec = record ((import_in "team-a").spec) {
    substitutions = record { name = "PASSWORD"; value = ""; secret = some selector } ∷ [];
  };
}

abbrev pub container : Container
container = record {
  name = "rhbk";
  image = "keycloak";
  image_pull_policy = "";
  command = [];
  args = [];
  ports = [];
  env = env_value "KC_CACHE" "ispn" ∷ env_value "KC_DB" "postgres" ∷ [];
  resources = record { requests = []; limits = [] };
  liveness_probe = none;
  readiness_probe = none;
  startup_probe = none;
  volume_mounts = [];
}

abbrev pub template : PodTemplate
template = record {
  labels = none;
  annotations = none;
  init_containers = [];
  containers = container ∷ [];
  volumes = [];
  restart_policy = "";
}

abbrev pub stateful_set : StatefulSet
stateful_set = record {
  meta = named "sso" "auth";
  spec = record {
    replicas = some 2;
    match_labels = [];
    update_strategy = "";
    partition = 0;
    revision_history_limit = 0;
    min_ready_seconds = 0;
    when_deleted = "";
    when_scaled = "";
    template = template;
  };
  status = record { replicas = 2; ready_replicas = 2 };
}

abbrev pub service : Meta → Service
service meta = record {
  meta = meta;
  spec = record { cluster_ip = ""; publish_not_ready_addresses = false; ports = []; selector = [] };
}

abbrev pub route : Meta → Route
route meta = record {
  meta = meta;
  spec = record {
    host = "sso.example.org";
    to_kind = "";
    to_name = "";
    target_port = "";
    tls_termination = "";
    insecure_edge_termination_policy = "";
  };
}

-- A job of an older version of the realm.
abbrev pub old_job : Job
old_job = record {
  meta = record (named "shop-import" "auth") { labels = some (("shop/team-a", "1") ∷ []) };
  template = template;
  backoff_limit = 1;
  conditions = record { kind = "Complete"; status = "True" } ∷ [];
}

abbrev pub done_job : Job
done_job = record old_job {
  meta = record (old_job.meta) { labels = some (("shop/team-a", "2") ∷ []) };
}

abbrev pub answer : {A : Type 0} → Outcome A → Exec ℕ A
answer r requests = (r, requests + 1)

-- The answer for an object that is not there.
abbrev pub gone : Error
gone = record { message = "not found"; not_found = true }

abbrev pub client : Client ℕ
client = record {
  now = λ requests. requests;
  get_keycloak = λ key. answer (ok keycloak);
  get_import = λ key. answer (ok (import_in "team-a"));
  get_stateful_set = λ key. answer (ok stateful_set);
  get_secret = λ key. answer (err gone);
  list_jobs = λ namespace set. answer (ok []);
  list_secrets = λ namespace set. answer (ok []);
  list_imports = answer (ok (import_in "team-b" ∷ import_in "team-a" ∷ []));
  create_job = λ job. answer (ok tt);
  delete_job = λ policy job. answer (ok tt);
  delete_secret = λ s. answer (ok tt);
  update_import = λ cr. answer (elim cr.meta.finalizers [ [] ↦ ok cr | _ ∷ _ ↦ err gone ]);
  update_stateful_set = λ s. answer (ok tt);
  update_keycloak_status = λ cr. answer (ok tt);
  update_import_status = λ cr. answer (ok tt);
  apply_service = λ meta f. answer (f (service meta));
  apply_route = λ meta f. answer (f (route meta));
  apply_stateful_set = λ meta f. answer (f (record stateful_set { meta = meta }));
  apply_service_monitor =
      λ meta f. answer (f (record { meta = meta; match_labels = []; endpoints = [] }));
  apply_secret = λ meta f. answer (f (record { meta = meta; contents = [] }));
}
