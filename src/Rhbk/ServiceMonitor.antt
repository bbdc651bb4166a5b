-- ===== src/Rhbk/ServiceMonitor.antt =====
-- internal/resources/monitoring/service_monitor.go: where Prometheus finds the metrics.
use Prim.Native.String.{◌++◌}
use rhbk_operator.Prelude.{some, [], ◌∷◌, concat}
use rhbk_operator.Prelude.Maps.{insert}
use rhbk_operator.Prelude.Outcome.{Outcome, ok, ◌>>=◌}
use rhbk_operator.Kube.Meta.{Meta, named}
use rhbk_operator.Kube.Objects.{ServiceMonitor}
use rhbk_operator.Kube.Libs.{Libs}
use rhbk_operator.Api.Types.{Keycloak}
use rhbk_operator.Resources.Labels.{decorate_default_labels}
use rhbk_operator.Rhbk.Names.{management_service_port_name, get_tls_secret_name, get_svc_name}

-- `m.mutateFn()`
unfoldable pub mutate_fn : Libs → Keycloak → ServiceMonitor → Outcome ServiceMonitor
unfolding decorate_default_labels insert
mutate_fn libs keycloak service = do
  let meta = record service.meta { labels = decorate_default_labels (some []) }
  owned ← libs.set_controller_reference keycloak.meta meta
  ok (record {
    meta = owned;
    match_labels = insert "app" "rhbk" [];
    endpoints =
        record {
          port = management_service_port_name;
          path = "/metrics";
          scheme = "https";
          interval = "30s";
          ca_secret_name = get_tls_secret_name keycloak;
          ca_secret_key = "tls.crt";
          server_name =
              concat (get_svc_name keycloak ∷ "." ∷ keycloak.meta.namespace ∷ ".svc" ∷ []);
        }
        ∷ [];
  })

unfoldable pub start : Keycloak → Meta
start keycloak = named (keycloak.meta.name ++ "-servicemonitor") keycloak.meta.namespace
