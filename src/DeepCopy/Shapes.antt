-- ===== src/DeepCopy/Shapes.antt =====
-- What the values of each type stand for: the fields of a struct, what is behind its pointers, and the
-- elements of its slices. A map stands for what it answers for a key.
use rhbk_operator.Prelude.{String, Option}
use rhbk_operator.Prelude.Maps.{Map, lookup}
use rhbk_operator.DeepCopy.Memory.{Pointer}
use rhbk_operator.DeepCopy.Shape.{Shape, plain, both, along, pointer, elements}
use rhbk_operator.DeepCopy.Deep.{IsDeep}
use rhbk_operator.DeepCopy.Structs.{
  Foreign, SecretOptionStruct, SecretOptionVarStruct, ProviderStruct, AdminUserStruct,
  FeaturesStruct, PostgresDatabaseStruct, KeycloakSpecStruct, ConditionsStruct,
  KeycloakStatusStruct, KeycloakImportSpecStruct, VersionedStatusStruct, KeycloakImportStatusStruct,
  KeycloakStruct, KeycloakImportStruct, KeycloakListStruct, KeycloakImportListStruct,
}
use rhbk_operator.DeepCopy.Fields.{
  secret_option_fields, secret_option_var_fields, provider_fields, admin_user_fields,
  features_fields, postgres_database_fields, keycloak_spec_fields, conditions_fields,
  keycloak_status_fields, versioned_status_fields, keycloak_import_spec_fields,
  keycloak_import_status_fields, keycloak_fields, keycloak_import_fields, keycloak_list_fields,
  keycloak_import_list_fields,
}
use rhbk_operator.DeepCopy.Cells.{Cell}
use rhbk_operator.DeepCopy.Storages.{
  selectors, string_slices, option_var_slices, provider_slices, condition_slices, keycloak_slices,
  import_slices, maps, int32s, references, network_configs, sizings, databases, keycloak_instances,
}
use rhbk_operator.DeepCopy.Structures.{
  secret_options, secret_option_vars, providers, admin_users, feature_sets, keycloak_specs,
  condition_lists, keycloak_statuses, import_specs, versioned_statuses, import_statuses, keycloaks,
  imports, keycloak_lists, import_lists,
}
use rhbk_operator.DeepCopy.Into.{Copiers}
use rhbk_operator.DeepCopy.Methods.{
  Kind, admin_user_kind, conditions_kind, features_kind, keycloak_kind, keycloak_import_kind,
  keycloak_import_list_kind, keycloak_import_spec_kind, keycloak_import_status_kind,
  keycloak_instance_kind, keycloak_list_kind, keycloak_spec_kind, keycloak_status_kind,
  network_config_kind, postgres_database_kind, provider_kind, realm_sizing_kind, secret_option_kind,
  secret_option_var_kind, versioned_status_kind,
}

-- What the values of the other packages stand for.
pub record ForeignShapes (F : Foreign) : Type 1 where
  pub object_meta : Shape (Cell F) F.ObjectMeta
  pub list_meta : Shape (Cell F) F.ListMeta
  pub condition : Shape (Cell F) F.Condition
  pub selector : Shape (Cell F) F.SecretKeySelector

-- What is relied on of the other packages: what a value stands for is fixed by the cells that it
-- reaches, and `DeepCopyInto` makes a deep copy.
pub record AreDeep {F : Foreign} (shapes : ForeignShapes F) (libs : Copiers F) : Type 0 where
  pub object_meta : IsDeep shapes.object_meta libs.object_meta
  pub list_meta : IsDeep shapes.list_meta libs.list_meta
  pub condition : IsDeep shapes.condition libs.condition
  pub selector : IsDeep shapes.selector libs.selector

abbrev pub entries : {C : Type 0} → Shape C (Map String)
entries = record {
  View = String → Option String;
  view = λ m entries key. lookup key entries;
  IsIn = λ low high m entries. Unit;
}

module _ {F : Foreign} (shapes : ForeignShapes F) where
  abbrev pub secret_option_shape : Shape (Cell F) (SecretOptionStruct)
  secret_option_shape =
      along secret_option_fields (both plain (pointer (selectors F) shapes.selector))

  abbrev pub secret_option_var_shape : Shape (Cell F) (SecretOptionVarStruct)
  secret_option_var_shape =
      along secret_option_var_fields
        (both plain (both plain (pointer (selectors F) shapes.selector)))

  abbrev pub provider_shape : Shape (Cell F) (ProviderStruct)
  provider_shape = along provider_fields (both plain secret_option_shape)

  abbrev pub admin_user_shape : Shape (Cell F) (AdminUserStruct)
  admin_user_shape = along admin_user_fields (both secret_option_shape secret_option_shape)

  abbrev pub features_shape : Shape (Cell F) (FeaturesStruct)
  features_shape =
      along features_fields
        (both (pointer (string_slices F) plain) (pointer (string_slices F) plain))

  abbrev pub postgres_database_shape : Shape (Cell F) (PostgresDatabaseStruct)
  postgres_database_shape = along postgres_database_fields (
      both secret_option_shape
        (both secret_option_shape (both secret_option_shape secret_option_shape)))

  abbrev pub keycloak_spec_shape : Shape (Cell F) (KeycloakSpecStruct)
  keycloak_spec_shape = along keycloak_spec_fields (
      both (pointer (databases F) postgres_database_shape) (
        both (pointer (option_var_slices F) (elements secret_option_var_shape)) (
          both (pointer (int32s F) plain) (
            both (pointer (references F) plain) (
              both admin_user_shape (
                both (pointer (provider_slices F) (elements provider_shape))
                  (both (pointer (network_configs F) plain) (pointer (sizings F) plain))))))))

  abbrev pub conditions_shape : Shape (Cell F) (ConditionsStruct)
  conditions_shape =
      along conditions_fields (pointer (condition_slices F) (elements shapes.condition))

  abbrev pub keycloak_status_shape : Shape (Cell F) (KeycloakStatusStruct)
  keycloak_status_shape = along keycloak_status_fields conditions_shape

  abbrev pub versioned_status_shape : Shape (Cell F) (VersionedStatusStruct)
  versioned_status_shape = along versioned_status_fields (pointer (maps F) entries)

  abbrev pub keycloak_import_spec_shape : Shape (Cell F) (KeycloakImportSpecStruct)
  keycloak_import_spec_shape = along keycloak_import_spec_fields (
      both plain (
        both plain (both (pointer (option_var_slices F) (elements secret_option_var_shape)) plain)))

  abbrev pub keycloak_import_status_shape : Shape (Cell F) (KeycloakImportStatusStruct)
  keycloak_import_status_shape =
      along keycloak_import_status_fields (both versioned_status_shape conditions_shape)

  abbrev pub keycloak_shape : Shape (Cell F) (KeycloakStruct F)
  keycloak_shape =
      along keycloak_fields
        (both plain (both shapes.object_meta (both keycloak_spec_shape keycloak_status_shape)))

  abbrev pub keycloak_import_shape : Shape (Cell F) (KeycloakImportStruct F)
  keycloak_import_shape = along keycloak_import_fields (
      both plain
        (both shapes.object_meta (both keycloak_import_spec_shape keycloak_import_status_shape)))

  abbrev pub keycloak_list_shape : Shape (Cell F) (KeycloakListStruct F)
  keycloak_list_shape =
      along keycloak_list_fields
        (both plain (both shapes.list_meta (pointer (keycloak_slices F) (elements keycloak_shape))))

  abbrev pub keycloak_import_list_shape : Shape (Cell F) (KeycloakImportListStruct F)
  keycloak_import_list_shape = along keycloak_import_list_fields (
      both plain
        (both shapes.list_meta (pointer (import_slices F) (elements keycloak_import_shape))))

  -- A pointer to a value of each type.
  abbrev pub shape_of : Kind → Shape (Cell F) Pointer
  shape_of admin_user_kind = pointer (admin_users F) admin_user_shape
  shape_of conditions_kind = pointer (condition_lists F) conditions_shape
  shape_of features_kind = pointer (feature_sets F) features_shape
  shape_of keycloak_kind = pointer (keycloaks F) keycloak_shape
  shape_of keycloak_import_kind = pointer (imports F) keycloak_import_shape
  shape_of keycloak_import_list_kind = pointer (import_lists F) keycloak_import_list_shape
  shape_of keycloak_import_spec_kind = pointer (import_specs F) keycloak_import_spec_shape
  shape_of keycloak_import_status_kind = pointer (import_statuses F) keycloak_import_status_shape
  shape_of keycloak_instance_kind = pointer (keycloak_instances F) plain
  shape_of keycloak_list_kind = pointer (keycloak_lists F) keycloak_list_shape
  shape_of keycloak_spec_kind = pointer (keycloak_specs F) keycloak_spec_shape
  shape_of keycloak_status_kind = pointer (keycloak_statuses F) keycloak_status_shape
  shape_of network_config_kind = pointer (network_configs F) plain
  shape_of postgres_database_kind = pointer (databases F) postgres_database_shape
  shape_of provider_kind = pointer (providers F) provider_shape
  shape_of realm_sizing_kind = pointer (sizings F) plain
  shape_of secret_option_kind = pointer (secret_options F) secret_option_shape
  shape_of secret_option_var_kind = pointer (secret_option_vars F) secret_option_var_shape
  shape_of versioned_status_kind = pointer (versioned_statuses F) versioned_status_shape
