-- ===== src/Rhbk/Route.antt =====
-- internal/resources/rhbk/route.go: the route to the application port.
use rhbk_operator.Prelude.{String, none, some, []}
use rhbk_operator.Prelude.Outcome.{Outcome, ok, ◌>>=◌}
use rhbk_operator.Kube.Meta.{Meta, named}
use rhbk_operator.Kube.Objects.{Route}
use rhbk_operator.Kube.Libs.{Libs}
use rhbk_operator.Api.Types.{Keycloak}
use rhbk_operator.Resources.Labels.{decorate_default_labels}
use rhbk_operator.Rhbk.Names.{get_svc_name}

-- The local `hostname`.
unfoldable pub hostname : Keycloak → String
hostname keycloak = elim keycloak.spec.network_config [ none ↦ "" | some config ↦ config.hostname ]

unfoldable pub build : Libs → Keycloak → Route → Outcome Route
unfolding decorate_default_labels hostname
build libs keycloak resource = do
  let meta = record resource.meta { labels = decorate_default_labels (some []) }
  owned ← libs.set_controller_reference keycloak.meta meta
  ok (record {
    meta = owned;
    spec = record {
      host = hostname keycloak;
      to_kind = "Service";
      to_name = get_svc_name keycloak;
      target_port = "https";
      tls_termination = "reencrypt";
      insecure_edge_termination_policy = "Redirect";
    };
  })

unfoldable pub start : Keycloak → Meta
start keycloak = named keycloak.meta.name keycloak.meta.namespace
