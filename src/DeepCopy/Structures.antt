-- ===== src/DeepCopy/Structures.antt =====
-- How the values are stored that the `DeepCopy` methods allocate: one storage for each of the structs.
use rhbk_operator.Prelude.{refl}
use rhbk_operator.DeepCopy.Memory.{Storage}
use rhbk_operator.DeepCopy.Structs.{
  Foreign, SecretOptionStruct, SecretOptionVarStruct, ProviderStruct, AdminUserStruct,
  FeaturesStruct, KeycloakSpecStruct, ConditionsStruct, KeycloakStatusStruct,
  KeycloakImportSpecStruct, VersionedStatusStruct, KeycloakImportStatusStruct, KeycloakStruct,
  KeycloakImportStruct, KeycloakListStruct, KeycloakImportListStruct, zero_secret_option,
  zero_secret_option_var, zero_provider, zero_admin_user, zero_features, zero_keycloak_spec,
  zero_conditions, zero_keycloak_status, zero_keycloak_import_spec, zero_versioned_status,
  zero_keycloak_import_status, zero_keycloak, zero_keycloak_import, zero_keycloak_list,
  zero_keycloak_import_list,
}
use rhbk_operator.DeepCopy.Cells.{
  Cell, secret_option_cell, secret_option_var_cell, provider_cell, admin_user_cell, features_cell,
  keycloak_spec_cell, condition_list_cell, keycloak_status_cell, keycloak_import_spec_cell,
  versioned_status_cell, keycloak_import_status_cell, keycloak_cell, keycloak_import_cell,
  keycloak_list_cell, keycloak_import_list_cell,
}

module _ (F : Foreign) where
  abbrev get_secret_option : Cell F → SecretOptionStruct
  get_secret_option (secret_option_cell a) = a
  get_secret_option _ = zero_secret_option

  abbrev pub secret_options : Storage (Cell F) (SecretOptionStruct)
  secret_options = record {
    put = secret_option_cell;
    get = get_secret_option;
    get-put = λ a. refl;
    zero_value = zero_secret_option;
  }

  abbrev get_secret_option_var : Cell F → SecretOptionVarStruct
  get_secret_option_var (secret_option_var_cell a) = a
  get_secret_option_var _ = zero_secret_option_var

  abbrev pub secret_option_vars : Storage (Cell F) (SecretOptionVarStruct)
  secret_option_vars = record {
    put = secret_option_var_cell;
    get = get_secret_option_var;
    get-put = λ a. refl;
    zero_value = zero_secret_option_var;
  }

  abbrev get_provider : Cell F → ProviderStruct
  get_provider (provider_cell a) = a
  get_provider _ = zero_provider

  abbrev pub providers : Storage (Cell F) (ProviderStruct)
  providers = record {
    put = provider_cell;
    get = get_provider;
    get-put = λ a. refl;
    zero_value = zero_provider;
  }

  abbrev get_admin_user : Cell F → AdminUserStruct
  get_admin_user (admin_user_cell a) = a
  get_admin_user _ = zero_admin_user

  abbrev pub admin_users : Storage (Cell F) (AdminUserStruct)
  admin_users = record {
    put = admin_user_cell;
    get = get_admin_user;
    get-put = λ a. refl;
    zero_value = zero_admin_user;
  }

  abbrev get_features : Cell F → FeaturesStruct
  get_features (features_cell a) = a
  get_features _ = zero_features

  abbrev pub feature_sets : Storage (Cell F) (FeaturesStruct)
  feature_sets = record {
    put = features_cell;
    get = get_features;
    get-put = λ a. refl;
    zero_value = zero_features;
  }

  abbrev get_keycloak_spec : Cell F → KeycloakSpecStruct
  get_keycloak_spec (keycloak_spec_cell a) = a
  get_keycloak_spec _ = zero_keycloak_spec

  abbrev pub keycloak_specs : Storage (Cell F) (KeycloakSpecStruct)
  keycloak_specs = record {
    put = keycloak_spec_cell;
    get = get_keycloak_spec;
    get-put = λ a. refl;
    zero_value = zero_keycloak_spec;
  }

  abbrev get_condition_list : Cell F → ConditionsStruct
  get_condition_list (condition_list_cell a) = a
  get_condition_list _ = zero_conditions

  abbrev pub condition_lists : Storage (Cell F) (ConditionsStruct)
  condition_lists = record {
    put = condition_list_cell;
    get = get_condition_list;
    get-put = λ a. refl;
    zero_value = zero_conditions;
  }

  abbrev get_keycloak_status : Cell F → KeycloakStatusStruct
  get_keycloak_status (keycloak_status_cell a) = a
  get_keycloak_status _ = zero_keycloak_status

  abbrev pub keycloak_statuses : Storage (Cell F) (KeycloakStatusStruct)
  keycloak_statuses = record {
    put = keycloak_status_cell;
    get = get_keycloak_status;
    get-put = λ a. refl;
    zero_value = zero_keycloak_status;
  }

  abbrev get_keycloak_import_spec : Cell F → KeycloakImportSpecStruct
  get_keycloak_import_spec (keycloak_import_spec_cell a) = a
  get_keycloak_import_spec _ = zero_keycloak_import_spec

  abbrev pub import_specs : Storage (Cell F) (KeycloakImportSpecStruct)
  import_specs = record {
    put = keycloak_import_spec_cell;
    get = get_keycloak_import_spec;
    get-put = λ a. refl;
    zero_value = zero_keycloak_import_spec;
  }

  abbrev get_versioned_status : Cell F → VersionedStatusStruct
  get_versioned_status (versioned_status_cell a) = a
  get_versioned_status _ = zero_versioned_status

  abbrev pub versioned_statuses : Storage (Cell F) (VersionedStatusStruct)
  versioned_statuses = record {
    put = versioned_status_cell;
    get = get_versioned_status;
    get-put = λ a. refl;
    zero_value = zero_versioned_status;
  }

  abbrev get_keycloak_import_status : Cell F → KeycloakImportStatusStruct
  get_keycloak_import_status (keycloak_import_status_cell a) = a
  get_keycloak_import_status _ = zero_keycloak_import_status

  abbrev pub import_statuses : Storage (Cell F) (KeycloakImportStatusStruct)
  import_statuses = record {
    put = keycloak_import_status_cell;
    get = get_keycloak_import_status;
    get-put = λ a. refl;
    zero_value = zero_keycloak_import_status;
  }

  abbrev get_keycloak : Cell F → KeycloakStruct F
  get_keycloak (keycloak_cell a) = a
  get_keycloak _ = zero_keycloak F

  abbrev pub keycloaks : Storage (Cell F) (KeycloakStruct F)
  keycloaks = record {
    put = keycloak_cell;
    get = get_keycloak;
    get-put = λ a. refl;
    zero_value = zero_keycloak F;
  }

  abbrev get_keycloak_import : Cell F → KeycloakImportStruct F
  get_keycloak_import (keycloak_import_cell a) = a
  get_keycloak_import _ = zero_keycloak_import F

  abbrev pub imports : Storage (Cell F) (KeycloakImportStruct F)
  imports = record {
    put = keycloak_import_cell;
    get = get_keycloak_import;
    get-put = λ a. refl;
    zero_value = zero_keycloak_import F;
  }

  abbrev get_keycloak_list : Cell F → KeycloakListStruct F
  get_keycloak_list (keycloak_list_cell a) = a
  get_keycloak_list _ = zero_keycloak_list F

  abbrev pub keycloak_lists : Storage (Cell F) (KeycloakListStruct F)
  keycloak_lists = record {
    put = keycloak_list_cell;
    get = get_keycloak_list;
    get-put = λ a. refl;
    zero_value = zero_keycloak_list F;
  }

  abbrev get_keycloak_import_list : Cell F → KeycloakImportListStruct F
  get_keycloak_import_list (keycloak_import_list_cell a) = a
  get_keycloak_import_list _ = zero_keycloak_import_list F

  abbrev pub import_lists : Storage (Cell F) (KeycloakImportListStruct F)
  import_lists = record {
    put = keycloak_import_list_cell;
    get = get_keycloak_import_list;
    get-put = λ a. refl;
    zero_value = zero_keycloak_import_list F;
  }
