-- ===== src/DeepCopy/Methods.antt =====
-- The `DeepCopy` and `DeepCopyObject` methods: the copy is allocated, and nil is copied to nil.
use rhbk_operator.Prelude.{Option, none, some}
use rhbk_operator.DeepCopy.Memory.{Memory, Pointer, new_copy}
use rhbk_operator.DeepCopy.Structs.{Foreign}
use rhbk_operator.DeepCopy.Cells.{Cell}
use rhbk_operator.DeepCopy.Storages.{databases, keycloak_instances, network_configs, sizings}
use rhbk_operator.DeepCopy.Structures.{
  admin_users, condition_lists, feature_sets, keycloaks, imports, import_lists, import_specs,
  import_statuses, keycloak_lists, keycloak_specs, keycloak_statuses, providers, secret_options,
  secret_option_vars, versioned_statuses,
}
use rhbk_operator.DeepCopy.Into.{
  Copiers, admin_user_deep_copy_into, conditions_deep_copy_into, features_deep_copy_into,
  keycloak_deep_copy_into, keycloak_import_deep_copy_into, keycloak_import_list_deep_copy_into,
  keycloak_import_spec_deep_copy_into, keycloak_import_status_deep_copy_into,
  keycloak_instance_deep_copy_into, keycloak_list_deep_copy_into, keycloak_spec_deep_copy_into,
  keycloak_status_deep_copy_into, network_config_deep_copy_into, postgres_database_deep_copy_into,
  provider_deep_copy_into, realm_sizing_deep_copy_into, secret_option_deep_copy_into,
  secret_option_var_deep_copy_into, versioned_status_deep_copy_into,
}

-- The types of the package that have a `DeepCopy` method.
pub data Kind : Type 0 where
  admin_user_kind : Kind
  conditions_kind : Kind
  features_kind : Kind
  keycloak_kind : Kind
  keycloak_import_kind : Kind
  keycloak_import_list_kind : Kind
  keycloak_import_spec_kind : Kind
  keycloak_import_status_kind : Kind
  keycloak_instance_kind : Kind
  keycloak_list_kind : Kind
  keycloak_spec_kind : Kind
  keycloak_status_kind : Kind
  network_config_kind : Kind
  postgres_database_kind : Kind
  provider_kind : Kind
  realm_sizing_kind : Kind
  secret_option_kind : Kind
  secret_option_var_kind : Kind
  versioned_status_kind : Kind

-- runtime.Object, as far as this package implements it: a pointer to a custom resource, or to a list of
-- them.
pub data Object : Type 0 where
  keycloak_object keycloak_list_object import_object import_list_object : Pointer → Object

-- `if c := in.DeepCopy(); c != nil { return c }; return nil`
abbrev pub as_object : (Pointer → Object) → Pointer → Option Object
as_object kind none = none
as_object kind (some p) = some (kind (some p))

module _ {F : Foreign} (libs : Copiers F) where
  unfoldable pub admin_user_deep_copy : Pointer → Memory (Cell F) → Pointer × Memory (Cell F)
  admin_user_deep_copy = new_copy (admin_users F) (admin_user_deep_copy_into libs)

  unfoldable pub conditions_deep_copy : Pointer → Memory (Cell F) → Pointer × Memory (Cell F)
  conditions_deep_copy = new_copy (condition_lists F) (conditions_deep_copy_into libs)

  unfoldable pub features_deep_copy : Pointer → Memory (Cell F) → Pointer × Memory (Cell F)
  features_deep_copy = new_copy (feature_sets F) features_deep_copy_into

  unfoldable pub keycloak_deep_copy : Pointer → Memory (Cell F) → Pointer × Memory (Cell F)
  keycloak_deep_copy = new_copy (keycloaks F) (keycloak_deep_copy_into libs)

  unfoldable pub keycloak_import_deep_copy : Pointer → Memory (Cell F) → Pointer × Memory (Cell F)
  keycloak_import_deep_copy = new_copy (imports F) (keycloak_import_deep_copy_into libs)

  unfoldable pub keycloak_import_list_deep_copy :
      Pointer → Memory (Cell F) → Pointer × Memory (Cell F)
  keycloak_import_list_deep_copy =
      new_copy (import_lists F) (keycloak_import_list_deep_copy_into libs)

  unfoldable pub keycloak_import_spec_deep_copy :
      Pointer → Memory (Cell F) → Pointer × Memory (Cell F)
  keycloak_import_spec_deep_copy =
      new_copy (import_specs F) (keycloak_import_spec_deep_copy_into libs)

  unfoldable pub keycloak_import_status_deep_copy :
      Pointer → Memory (Cell F) → Pointer × Memory (Cell F)
  keycloak_import_status_deep_copy =
      new_copy (import_statuses F) (keycloak_import_status_deep_copy_into libs)

  unfoldable pub keycloak_instance_deep_copy : Pointer → Memory (Cell F) → Pointer × Memory (Cell F)
  keycloak_instance_deep_copy = new_copy (keycloak_instances F) keycloak_instance_deep_copy_into

  unfoldable pub keycloak_list_deep_copy : Pointer → Memory (Cell F) → Pointer × Memory (Cell F)
  keycloak_list_deep_copy = new_copy (keycloak_lists F) (keycloak_list_deep_copy_into libs)

  unfoldable pub keycloak_spec_deep_copy : Pointer → Memory (Cell F) → Pointer × Memory (Cell F)
  keycloak_spec_deep_copy = new_copy (keycloak_specs F) (keycloak_spec_deep_copy_into libs)

  unfoldable pub keycloak_status_deep_copy : Pointer → Memory (Cell F) → Pointer × Memory (Cell F)
  keycloak_status_deep_copy = new_copy (keycloak_statuses F) (keycloak_status_deep_copy_into libs)

  unfoldable pub network_config_deep_copy : Pointer → Memory (Cell F) → Pointer × Memory (Cell F)
  network_config_deep_copy = new_copy (network_configs F) network_config_deep_copy_into

  unfoldable pub postgres_database_deep_copy : Pointer → Memory (Cell F) → Pointer × Memory (Cell F)
  postgres_database_deep_copy = new_copy (databases F) (postgres_database_deep_copy_into libs)

  unfoldable pub provider_deep_copy : Pointer → Memory (Cell F) → Pointer × Memory (Cell F)
  provider_deep_copy = new_copy (providers F) (provider_deep_copy_into libs)

  unfoldable pub realm_sizing_deep_copy : Pointer → Memory (Cell F) → Pointer × Memory (Cell F)
  realm_sizing_deep_copy = new_copy (sizings F) realm_sizing_deep_copy_into

  unfoldable pub secret_option_deep_copy : Pointer → Memory (Cell F) → Pointer × Memory (Cell F)
  secret_option_deep_copy = new_copy (secret_options F) (secret_option_deep_copy_into libs)

  unfoldable pub secret_option_var_deep_copy : Pointer → Memory (Cell F) → Pointer × Memory (Cell F)
  secret_option_var_deep_copy =
      new_copy (secret_option_vars F) (secret_option_var_deep_copy_into libs)

  unfoldable pub versioned_status_deep_copy : Pointer → Memory (Cell F) → Pointer × Memory (Cell F)
  versioned_status_deep_copy = new_copy (versioned_statuses F) versioned_status_deep_copy_into

  unfoldable pub keycloak_deep_copy_object :
      Pointer → Memory (Cell F) → Option Object × Memory (Cell F)
  keycloak_deep_copy_object source m =
      let (c, end) = keycloak_deep_copy source m in (as_object keycloak_object c, end)

  unfoldable pub keycloak_list_deep_copy_object :
      Pointer → Memory (Cell F) → Option Object × Memory (Cell F)
  keycloak_list_deep_copy_object source m =
      let (c, end) = keycloak_list_deep_copy source m in (as_object keycloak_list_object c, end)

  unfoldable pub keycloak_import_deep_copy_object :
      Pointer → Memory (Cell F) → Option Object × Memory (Cell F)
  keycloak_import_deep_copy_object source m =
      let (c, end) = keycloak_import_deep_copy source m in (as_object import_object c, end)

  unfoldable pub keycloak_import_list_deep_copy_object :
      Pointer → Memory (Cell F) → Option Object × Memory (Cell F)
  keycloak_import_list_deep_copy_object source m =
      let (c, end) = keycloak_import_list_deep_copy source m in
      (as_object import_list_object c, end)

  -- The method of a value whose type is known at run time.
  abbrev pub deep_copy : Kind → Pointer → Memory (Cell F) → Pointer × Memory (Cell F)
  deep_copy admin_user_kind = admin_user_deep_copy
  deep_copy conditions_kind = conditions_deep_copy
  deep_copy features_kind = features_deep_copy
  deep_copy keycloak_kind = keycloak_deep_copy
  deep_copy keycloak_import_kind = keycloak_import_deep_copy
  deep_copy keycloak_import_list_kind = keycloak_import_list_deep_copy
  deep_copy keycloak_import_spec_kind = keycloak_import_spec_deep_copy
  deep_copy keycloak_import_status_kind = keycloak_import_status_deep_copy
  deep_copy keycloak_instance_kind = keycloak_instance_deep_copy
  deep_copy keycloak_list_kind = keycloak_list_deep_copy
  deep_copy keycloak_spec_kind = keycloak_spec_deep_copy
  deep_copy keycloak_status_kind = keycloak_status_deep_copy
  deep_copy network_config_kind = network_config_deep_copy
  deep_copy postgres_database_kind = postgres_database_deep_copy
  deep_copy provider_kind = provider_deep_copy
  deep_copy realm_sizing_kind = realm_sizing_deep_copy
  deep_copy secret_option_kind = secret_option_deep_copy
  deep_copy secret_option_var_kind = secret_option_var_deep_copy
  deep_copy versioned_status_kind = versioned_status_deep_copy

  abbrev pub deep_copy_object : Object → Memory (Cell F) → Option Object × Memory (Cell F)
  deep_copy_object (keycloak_object p) = keycloak_deep_copy_object p
  deep_copy_object (keycloak_list_object p) = keycloak_list_deep_copy_object p
  deep_copy_object (import_object p) = keycloak_import_deep_copy_object p
  deep_copy_object (import_list_object p) = keycloak_import_list_deep_copy_object p
