-- ===== src/Rhbk/Names.antt =====
-- The names and ports of the objects of one Keycloak instance.
use Prim.Native.String.{◌++◌}
use rhbk_operator.Prelude.{ℕ, String}
use rhbk_operator.Api.Types.{Keycloak}

abbrev pub management_service_port_name : String
management_service_port_name = "management"

abbrev pub application_service_port_name : String
application_service_port_name = "https"

abbrev pub management_port : ℕ
management_port = 9000

abbrev pub https_port : ℕ
https_port = 8443

abbrev pub discovery_port : ℕ
discovery_port = 7800

abbrev pub rhbk_image : String
rhbk_image = "registry.redhat.io/rhbk/keycloak-rhel9:26.0-6"

abbrev pub get_tls_secret_name : Keycloak → String
get_tls_secret_name cr = cr.meta.name ++ "-tls"

abbrev pub get_svc_name : Keycloak → String
get_svc_name cr = cr.meta.name ++ "-svc"

abbrev pub get_discovery_svc_name : Keycloak → String
get_discovery_svc_name cr = cr.meta.name ++ "-discovery"

abbrev pub get_stateful_set_name : Keycloak → String
get_stateful_set_name cr = cr.meta.name
