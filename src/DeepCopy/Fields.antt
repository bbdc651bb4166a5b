-- ===== src/DeepCopy/Fields.antt =====
-- The fields of the structs, one after the other.
use rhbk_operator.Prelude.{String, Bool}
use rhbk_operator.Api.Types.{KeycloakInstance}
use rhbk_operator.DeepCopy.Memory.{Pointer}
use rhbk_operator.DeepCopy.Structs.{
  Foreign, TypeMeta, SecretOptionStruct, SecretOptionVarStruct, ProviderStruct, AdminUserStruct,
  FeaturesStruct, PostgresDatabaseStruct, KeycloakSpecStruct, ConditionsStruct,
  KeycloakStatusStruct, KeycloakImportSpecStruct, VersionedStatusStruct, KeycloakImportStatusStruct,
  KeycloakStruct, KeycloakImportStruct, KeycloakListStruct, KeycloakImportListStruct,
}

abbrev pub secret_option_fields : SecretOptionStruct → String × Pointer
secret_option_fields s = (s.value, s.secret)

abbrev pub secret_option_var_fields : SecretOptionVarStruct → String × (String × Pointer)
secret_option_var_fields s = (s.name, (s.value, s.secret))

abbrev pub provider_fields : ProviderStruct → String × SecretOptionStruct
provider_fields s = (s.name, s.url)

abbrev pub admin_user_fields : AdminUserStruct → SecretOptionStruct × SecretOptionStruct
admin_user_fields s = (s.username, s.password)

abbrev pub features_fields : FeaturesStruct → Pointer × Pointer
features_fields s = (s.enabled, s.disabled)

abbrev pub postgres_database_fields :
    PostgresDatabaseStruct
    → SecretOptionStruct × (SecretOptionStruct × (SecretOptionStruct × SecretOptionStruct))
postgres_database_fields s = (s.host, (s.port, (s.user, s.password)))

abbrev pub keycloak_spec_fields :
    KeycloakSpecStruct
    → Pointer
      × (Pointer × (Pointer × (Pointer × (AdminUserStruct × (Pointer × (Pointer × Pointer))))))
keycloak_spec_fields s = (
  s.database,
  (
    s.additional_options,
    (s.instances, (s.trusted_ca_bundles, (s.admin, (s.providers, (s.network_config, s.sizing))))),
  ),
)

abbrev pub conditions_fields : ConditionsStruct → Pointer
conditions_fields s = s.conditions

abbrev pub keycloak_status_fields : KeycloakStatusStruct → ConditionsStruct
keycloak_status_fields s = s.conditions

abbrev pub versioned_status_fields : VersionedStatusStruct → Pointer
versioned_status_fields s = s.resource_versions

abbrev pub keycloak_import_spec_fields :
    KeycloakImportSpecStruct → KeycloakInstance × (String × (Pointer × Bool))
keycloak_import_spec_fields s =
    (s.keycloak_instance, (s.json, (s.substitutions, s.override_if_exists)))

abbrev pub keycloak_import_status_fields :
    KeycloakImportStatusStruct → VersionedStatusStruct × ConditionsStruct
keycloak_import_status_fields s = (s.version, s.conditions)

abbrev pub keycloak_fields :
    {F : Foreign}
    → KeycloakStruct F
    → TypeMeta × (F.ObjectMeta × (KeycloakSpecStruct × KeycloakStatusStruct))
keycloak_fields s = (s.type_meta, (s.object_meta, (s.spec, s.status)))

abbrev pub keycloak_import_fields :
    {F : Foreign}
    → KeycloakImportStruct F
    → TypeMeta × (F.ObjectMeta × (KeycloakImportSpecStruct × KeycloakImportStatusStruct))
keycloak_import_fields s = (s.type_meta, (s.object_meta, (s.spec, s.status)))

abbrev pub keycloak_list_fields :
    {F : Foreign} → KeycloakListStruct F → TypeMeta × (F.ListMeta × Pointer)
keycloak_list_fields s = (s.type_meta, (s.list_meta, s.items))

abbrev pub keycloak_import_list_fields :
    {F : Foreign} → KeycloakImportListStruct F → TypeMeta × (F.ListMeta × Pointer)
keycloak_import_list_fields s = (s.type_meta, (s.list_meta, s.items))
