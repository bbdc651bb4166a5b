-- ===== src/DeepCopy/Laws.antt =====
-- Each `DeepCopy` makes a deep copy.
use rhbk_operator.Api.Types.{NetworkConfig, RealmSizing, KeycloakInstance}
use rhbk_operator.DeepCopy.Memory.{Memory, Pointer}
use rhbk_operator.DeepCopy.Rules.{IsCopied}
use rhbk_operator.DeepCopy.Deep.{IsDeep, plain-IsDeep, new_copy-IsDeep}
use rhbk_operator.DeepCopy.Structs.{Foreign}
use rhbk_operator.DeepCopy.Cells.{Cell}
use rhbk_operator.DeepCopy.Storages.{databases, keycloak_instances, network_configs, sizings}
use rhbk_operator.DeepCopy.Structures.{
  admin_users, condition_lists, feature_sets, keycloaks, imports, import_lists, import_specs,
  import_statuses, keycloak_lists, keycloak_specs, keycloak_statuses, providers, secret_options,
  secret_option_vars, versioned_statuses,
}
use rhbk_operator.DeepCopy.Into.{
  Copiers, keycloak_instance_deep_copy_into, network_config_deep_copy_into,
  realm_sizing_deep_copy_into,
}
use rhbk_operator.DeepCopy.Methods.{
  Kind, admin_user_kind, conditions_kind, features_kind, keycloak_kind, keycloak_import_kind,
  keycloak_import_list_kind, keycloak_import_spec_kind, keycloak_import_status_kind,
  keycloak_instance_kind, keycloak_list_kind, keycloak_spec_kind, keycloak_status_kind,
  network_config_kind, postgres_database_kind, provider_kind, realm_sizing_kind, secret_option_kind,
  secret_option_var_kind, versioned_status_kind, deep_copy, admin_user_deep_copy,
  conditions_deep_copy, features_deep_copy, keycloak_deep_copy, keycloak_import_deep_copy,
  keycloak_import_list_deep_copy, keycloak_import_spec_deep_copy, keycloak_import_status_deep_copy,
  keycloak_instance_deep_copy, keycloak_list_deep_copy, keycloak_spec_deep_copy,
  keycloak_status_deep_copy, network_config_deep_copy, postgres_database_deep_copy,
  provider_deep_copy, realm_sizing_deep_copy, secret_option_deep_copy, secret_option_var_deep_copy,
  versioned_status_deep_copy,
}
use rhbk_operator.DeepCopy.Shapes.{ForeignShapes, AreDeep, shape_of}
use rhbk_operator.DeepCopy.Parts.{
  secret_option_deep_copy_into-IsDeep, secret_option_var_deep_copy_into-IsDeep,
  provider_deep_copy_into-IsDeep, admin_user_deep_copy_into-IsDeep, features_deep_copy_into-IsDeep,
  postgres_database_deep_copy_into-IsDeep, keycloak_spec_deep_copy_into-IsDeep,
  conditions_deep_copy_into-IsDeep, keycloak_status_deep_copy_into-IsDeep,
  versioned_status_deep_copy_into-IsDeep, keycloak_import_spec_deep_copy_into-IsDeep,
  keycloak_import_status_deep_copy_into-IsDeep, keycloak_deep_copy_into-IsDeep,
  keycloak_import_deep_copy_into-IsDeep, keycloak_list_deep_copy_into-IsDeep,
  keycloak_import_list_deep_copy_into-IsDeep,
}

module _ {F : Foreign} {shapes : ForeignShapes F} {libs : Copiers F}
    (laws : AreDeep shapes libs) where
  pub deep_copy-IsDeep : (k : Kind) → IsDeep (shape_of shapes k) (deep_copy libs k)
  unfolding admin_user_deep_copy conditions_deep_copy features_deep_copy keycloak_deep_copy
      keycloak_import_deep_copy keycloak_import_list_deep_copy keycloak_import_spec_deep_copy
      keycloak_import_status_deep_copy keycloak_instance_deep_copy keycloak_list_deep_copy
      keycloak_spec_deep_copy keycloak_status_deep_copy network_config_deep_copy
      postgres_database_deep_copy provider_deep_copy realm_sizing_deep_copy secret_option_deep_copy
      secret_option_var_deep_copy versioned_status_deep_copy keycloak_instance_deep_copy_into
      network_config_deep_copy_into realm_sizing_deep_copy_into
  deep_copy-IsDeep admin_user_kind =
      new_copy-IsDeep (admin_user_deep_copy_into-IsDeep laws) (admin_users F)
  deep_copy-IsDeep conditions_kind =
      new_copy-IsDeep (conditions_deep_copy_into-IsDeep laws) (condition_lists F)
  deep_copy-IsDeep features_kind =
      new_copy-IsDeep (features_deep_copy_into-IsDeep laws) (feature_sets F)
  deep_copy-IsDeep keycloak_kind =
      new_copy-IsDeep (keycloak_deep_copy_into-IsDeep laws) (keycloaks F)
  deep_copy-IsDeep keycloak_import_kind =
      new_copy-IsDeep (keycloak_import_deep_copy_into-IsDeep laws) (imports F)
  deep_copy-IsDeep keycloak_import_list_kind =
      new_copy-IsDeep (keycloak_import_list_deep_copy_into-IsDeep laws) (import_lists F)
  deep_copy-IsDeep keycloak_import_spec_kind =
      new_copy-IsDeep (keycloak_import_spec_deep_copy_into-IsDeep laws) (import_specs F)
  deep_copy-IsDeep keycloak_import_status_kind =
      new_copy-IsDeep (keycloak_import_status_deep_copy_into-IsDeep laws) (import_statuses F)
  deep_copy-IsDeep keycloak_instance_kind =
      new_copy-IsDeep (plain-IsDeep {A = KeycloakInstance}) (keycloak_instances F)
  deep_copy-IsDeep keycloak_list_kind =
      new_copy-IsDeep (keycloak_list_deep_copy_into-IsDeep laws) (keycloak_lists F)
  deep_copy-IsDeep keycloak_spec_kind =
      new_copy-IsDeep (keycloak_spec_deep_copy_into-IsDeep laws) (keycloak_specs F)
  deep_copy-IsDeep keycloak_status_kind =
      new_copy-IsDeep (keycloak_status_deep_copy_into-IsDeep laws) (keycloak_statuses F)
  deep_copy-IsDeep network_config_kind =
      new_copy-IsDeep (plain-IsDeep {A = NetworkConfig}) (network_configs F)
  deep_copy-IsDeep postgres_database_kind =
      new_copy-IsDeep (postgres_database_deep_copy_into-IsDeep laws) (databases F)
  deep_copy-IsDeep provider_kind =
      new_copy-IsDeep (provider_deep_copy_into-IsDeep laws) (providers F)
  deep_copy-IsDeep realm_sizing_kind = new_copy-IsDeep (plain-IsDeep {A = RealmSizing}) (sizings F)
  deep_copy-IsDeep secret_option_kind =
      new_copy-IsDeep (secret_option_deep_copy_into-IsDeep laws) (secret_options F)
  deep_copy-IsDeep secret_option_var_kind =
      new_copy-IsDeep (secret_option_var_deep_copy_into-IsDeep laws) (secret_option_vars F)
  deep_copy-IsDeep versioned_status_kind =
      new_copy-IsDeep (versioned_status_deep_copy_into-IsDeep laws) (versioned_statuses F)

  -- Where the values of the other packages are deeply copied, and all that a pointer to one of the
  -- nineteen types reaches is in memory that was given out: `DeepCopy` changes no cell that was in use,
  -- what its result reaches was allocated by it, and its result stands for the same value, nil for nil.
  pub deep_copy-IsCopied :
      (k : Kind) (p : Pointer) (m : Memory (Cell F))
      → (shape_of shapes k).IsIn 0 m.next m p
      → IsCopied (shape_of shapes k) m p (deep_copy libs k p m)
  deep_copy-IsCopied k p m inside = (deep_copy-IsDeep k).copies.copied p m inside
