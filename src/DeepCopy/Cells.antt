-- ===== src/DeepCopy/Cells.antt =====
-- What a cell of the memory holds: one value of a type that is behind a pointer, the elements of a
-- slice, or the entries of a map. A corev1.LocalObjectReference is its name.
use rhbk_operator.Prelude.{String, List}
use rhbk_operator.Prelude.Maps.{Map}
use rhbk_operator.Kube.Meta.{Int32}
use rhbk_operator.Api.Types.{NetworkConfig, RealmSizing, KeycloakInstance}
use rhbk_operator.DeepCopy.Structs.{
  Foreign, SecretOptionStruct, SecretOptionVarStruct, ProviderStruct, AdminUserStruct,
  FeaturesStruct, PostgresDatabaseStruct, KeycloakSpecStruct, ConditionsStruct,
  KeycloakStatusStruct, KeycloakImportSpecStruct, VersionedStatusStruct, KeycloakImportStatusStruct,
  KeycloakStruct, KeycloakImportStruct, KeycloakListStruct, KeycloakImportListStruct,
}

pub data Cell (F : Foreign) : Type 0 where
  selector_cell : F.SecretKeySelector → Cell F
  strings_cell : List String → Cell F
  option_vars_cell : List SecretOptionVarStruct → Cell F
  providers_cell : List ProviderStruct → Cell F
  conditions_cell : List F.Condition → Cell F
  keycloaks_cell : List (KeycloakStruct F) → Cell F
  imports_cell : List (KeycloakImportStruct F) → Cell F
  map_cell : Map String → Cell F
  int32_cell : Int32 → Cell F
  reference_cell : String → Cell F
  network_config_cell : NetworkConfig → Cell F
  sizing_cell : RealmSizing → Cell F
  database_cell : PostgresDatabaseStruct → Cell F
  keycloak_instance_cell : KeycloakInstance → Cell F
  secret_option_cell : SecretOptionStruct → Cell F
  secret_option_var_cell : SecretOptionVarStruct → Cell F
  provider_cell : ProviderStruct → Cell F
  admin_user_cell : AdminUserStruct → Cell F
  features_cell : FeaturesStruct → Cell F
  keycloak_spec_cell : KeycloakSpecStruct → Cell F
  condition_list_cell : ConditionsStruct → Cell F
  keycloak_status_cell : KeycloakStatusStruct → Cell F
  keycloak_import_spec_cell : KeycloakImportSpecStruct → Cell F
  versioned_status_cell : VersionedStatusStruct → Cell F
  keycloak_import_status_cell : KeycloakImportStatusStruct → Cell F
  keycloak_cell : KeycloakStruct F → Cell F
  keycloak_import_cell : KeycloakImportStruct F → Cell F
  keycloak_list_cell : KeycloakListStruct F → Cell F
  keycloak_import_list_cell : KeycloakImportListStruct F → Cell F
  foreign_cell : F.Content → Cell F
