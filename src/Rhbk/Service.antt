-- ===== src/Rhbk/Service.antt =====
-- internal/resources/rhbk/service.go: the service of the application and the management port.
use rhbk_operator.Prelude.{false, some, [], ◌∷◌}
use rhbk_operator.Prelude.Outcome.{Outcome, ok, ◌>>=◌}
use rhbk_operator.Kube.Meta.{Meta, named}
use rhbk_operator.Kube.Objects.{Service}
use rhbk_operator.Kube.Libs.{Libs}
use rhbk_operator.Api.Types.{Keycloak}
use rhbk_operator.Resources.Labels.{decorate_default_labels}
use rhbk_operator.Rhbk.Names.{
  management_service_port_name, application_service_port_name, management_port, https_port,
  get_tls_secret_name, get_svc_name,
}

-- `s.Build()`, the function that `CreateOrUpdate` runs on the object it fetched or starts from.
unfoldable pub build : Libs → Keycloak → Service → Outcome Service
unfolding decorate_default_labels
build libs keycloak resource = do
  let meta = record resource.meta {
    labels = decorate_default_labels (some []);
    annotations =
        some (
          ("service.beta.openshift.io/serving-cert-secret-name", get_tls_secret_name keycloak)
          ∷ []);
  }
  owned ← libs.set_controller_reference keycloak.meta meta
  ok (record {
    meta = owned;
    spec = record {
      cluster_ip = "";
      publish_not_ready_addresses = false;
      ports =
          record {
            name = management_service_port_name;
            protocol = "TCP";
            port = management_port;
            target_port = management_port;
          }
          ∷ record {
            name = application_service_port_name;
            protocol = "TCP";
            port = https_port;
            target_port = https_port;
          }
          ∷ [];
      selector = ("app", "rhbk") ∷ [];
    };
  })

-- The object that `CreateOrUpdate` looks up.
unfoldable pub start : Keycloak → Meta
start keycloak = named (get_svc_name keycloak) keycloak.meta.namespace
