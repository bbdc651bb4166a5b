-- ===== src/Rhbk/DiscoveryService.antt =====
-- internal/resources/rhbk/discovery_service.go: the headless service by which the pods find one
-- another.
use rhbk_operator.Prelude.{true, some, [], ◌∷◌}
use rhbk_operator.Prelude.Outcome.{Outcome, ok, ◌>>=◌}
use rhbk_operator.Kube.Meta.{Meta, named}
use rhbk_operator.Kube.Objects.{Service}
use rhbk_operator.Kube.Libs.{Libs}
use rhbk_operator.Api.Types.{Keycloak}
use rhbk_operator.Resources.Labels.{decorate_default_labels}
use rhbk_operator.Rhbk.Names.{discovery_port, get_discovery_svc_name}

unfoldable pub build : Libs → Keycloak → Service → Outcome Service
unfolding decorate_default_labels
build libs keycloak resource = do
  let meta = record resource.meta { labels = decorate_default_labels (some []) }
  owned ← libs.set_controller_reference keycloak.meta meta
  ok (record {
    meta = owned;
    spec = record {
      cluster_ip = "None";
      publish_not_ready_addresses = true;
      ports =
          record {
            name = "tcp";
            protocol = "TCP";
            port = discovery_port;
            target_port = discovery_port;
          }
          ∷ [];
      selector = ("app", "rhbk") ∷ [];
    };
  })

unfoldable pub start : Keycloak → Meta
start keycloak = named (get_discovery_svc_name keycloak) keycloak.meta.namespace
