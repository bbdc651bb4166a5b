-- ===== src/Realm/Names.antt =====
-- The names, labels and paths of the objects of one realm import.
use Prim.Native.String.{◌++◌}
use rhbk_operator.Prelude.{String, [], ◌∷◌, concat}
use rhbk_operator.Api.Types.{KeycloakImport}

abbrev pub busybox_image : String
busybox_image = "registry.access.redhat.com/ubi8/ubi:8.10-1088"

abbrev pub providers_path : String
providers_path = "/opt/keycloak/providers"

abbrev pub get_import_job_name : KeycloakImport → String
get_import_job_name cr = cr.meta.name ++ "-import"

abbrev pub get_import_job_secret_name : KeycloakImport → String
get_import_job_secret_name cr = cr.meta.name

abbrev pub get_import_job_secret_volume_name : KeycloakImport → String
get_import_job_secret_volume_name cr = get_import_job_secret_name cr ++ "-volume"

abbrev pub get_import_job_secret_realm_name : KeycloakImport → String
get_import_job_secret_realm_name cr = cr.meta.name ++ "-realm.json"

abbrev pub get_realm_mount_path : KeycloakImport → String
get_realm_mount_path cr = concat ("/mnt/realm-import/" ∷ cr.meta.name ∷ "-realm.json" ∷ [])

-- The key under which the job and the stateful set carry the version of the secret.
abbrev pub get_import_job_annotation : KeycloakImport → String
get_import_job_annotation cr = concat (cr.meta.name ∷ "/" ∷ cr.meta.namespace ∷ [])
