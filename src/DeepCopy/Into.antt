-- ===== src/DeepCopy/Into.antt =====
-- The `DeepCopyInto` methods. Each starts from the copy of the struct that `*out = *in` makes, and
-- then replaces what is behind a pointer, in the order of the code; an assignment that repeats a part
-- of that copy, as of the type metadata, is left out.
use rhbk_operator.Prelude.{String, [], ◌∷◌}
use rhbk_operator.Prelude.Maps.{Map, insert}
use rhbk_operator.Api.Types.{NetworkConfig, RealmSizing, KeycloakInstance}
use rhbk_operator.DeepCopy.Memory.{Memory, Copying, new_copy, each, keep}
use rhbk_operator.DeepCopy.Structs.{
  Foreign, SecretOptionStruct, SecretOptionVarStruct, ProviderStruct, AdminUserStruct,
  FeaturesStruct, PostgresDatabaseStruct, KeycloakSpecStruct, ConditionsStruct,
  KeycloakStatusStruct, KeycloakImportSpecStruct, VersionedStatusStruct, KeycloakImportStatusStruct,
  KeycloakStruct, KeycloakImportStruct, KeycloakListStruct, KeycloakImportListStruct,
}
use rhbk_operator.DeepCopy.Cells.{Cell}
use rhbk_operator.DeepCopy.Storages.{
  selectors, string_slices, option_var_slices, provider_slices, condition_slices, keycloak_slices,
  import_slices, maps, int32s, references, network_configs, sizings, databases,
}

-- The `DeepCopyInto` methods of the types of other packages.
pub record Copiers (F : Foreign) : Type 0 where
  pub object_meta : Copying (Cell F) F.ObjectMeta
  pub list_meta : Copying (Cell F) F.ListMeta
  pub condition : Copying (Cell F) F.Condition
  pub selector : Copying (Cell F) F.SecretKeySelector

-- `for key, val := range *in { (*out)[key] = val }`, into an empty map. Go leaves the order open: here
-- the first entry is written last.
unfoldable pub copy_entries : Map String → Map String
copy_entries [] = []
copy_entries ((key, val) ∷ rest) = insert key val (copy_entries rest)

abbrev pub refill : {C : Type 0} → Map String → Memory C → Map String × Memory C
refill entries m = (copy_entries entries, m)

module _ {F : Foreign} where
  unfoldable pub keycloak_instance_deep_copy_into : Copying (Cell F) KeycloakInstance
  keycloak_instance_deep_copy_into source m = (source, m)

  unfoldable pub network_config_deep_copy_into : Copying (Cell F) NetworkConfig
  network_config_deep_copy_into source m = (source, m)

  unfoldable pub realm_sizing_deep_copy_into : Copying (Cell F) RealmSizing
  realm_sizing_deep_copy_into source m = (source, m)

  unfoldable pub features_deep_copy_into : Copying (Cell F) FeaturesStruct
  features_deep_copy_into source m =
      let (enabled, one) = new_copy (string_slices F) keep source.enabled m in
      let (disabled, end) = new_copy (string_slices F) keep source.disabled one in
      (record source { enabled = enabled; disabled = disabled }, end)

  unfoldable pub versioned_status_deep_copy_into : Copying (Cell F) VersionedStatusStruct
  versioned_status_deep_copy_into source m =
      let (resource_versions, end) = new_copy (maps F) refill source.resource_versions m in
      (record source { resource_versions = resource_versions }, end)

module _ {F : Foreign} (libs : Copiers F) where
  unfoldable pub secret_option_deep_copy_into : Copying (Cell F) SecretOptionStruct
  secret_option_deep_copy_into source m =
      let (secret, end) = new_copy (selectors F) libs.selector source.secret m in
      (record source { secret = secret }, end)

  unfoldable pub secret_option_var_deep_copy_into : Copying (Cell F) SecretOptionVarStruct
  secret_option_var_deep_copy_into source m =
      let (secret, end) = new_copy (selectors F) libs.selector source.secret m in
      (record source { secret = secret }, end)

  unfoldable pub provider_deep_copy_into : Copying (Cell F) ProviderStruct
  provider_deep_copy_into source m =
      let (url, end) = secret_option_deep_copy_into source.url m in
      (record source { url = url }, end)

  unfoldable pub admin_user_deep_copy_into : Copying (Cell F) AdminUserStruct
  admin_user_deep_copy_into source m =
      let (username, one) = secret_option_deep_copy_into source.username m in
      let (password, end) = secret_option_deep_copy_into source.password one in
      (record source { username = username; password = password }, end)

  unfoldable pub postgres_database_deep_copy_into : Copying (Cell F) PostgresDatabaseStruct
  postgres_database_deep_copy_into source m =
      let (host, one) = secret_option_deep_copy_into source.host m in
      let (port, two) = secret_option_deep_copy_into source.port one in
      let (user, three) = secret_option_deep_copy_into source.user two in
      let (password, end) = secret_option_deep_copy_into source.password three in
      (record source { host = host; port = port; user = user; password = password }, end)

  unfoldable pub keycloak_spec_deep_copy_into : Copying (Cell F) KeycloakSpecStruct
  keycloak_spec_deep_copy_into source m =
      let (database, one) =
        new_copy (databases F) postgres_database_deep_copy_into source.database m in
      let (additional_options, two) =
        new_copy (option_var_slices F) (each secret_option_var_deep_copy_into)
          source.additional_options one in
      let (instances, three) = new_copy (int32s F) keep source.instances two in
      let (trusted_ca_bundles, four) =
        new_copy (references F) keep source.trusted_ca_bundles three in
      let (admin, five) = admin_user_deep_copy_into source.admin four in
      let (providers, six) =
        new_copy (provider_slices F) (each provider_deep_copy_into) source.providers five in
      let (network_config, seven) = new_copy (network_configs F) keep source.network_config six in
      let (sizing, end) = new_copy (sizings F) keep source.sizing seven in
      (
        record source {
          database = database;
          additional_options = additional_options;
          instances = instances;
          trusted_ca_bundles = trusted_ca_bundles;
          admin = admin;
          providers = providers;
          network_config = network_config;
          sizing = sizing;
        },
        end,
      )

  unfoldable pub conditions_deep_copy_into : Copying (Cell F) ConditionsStruct
  conditions_deep_copy_into source m =
      let (conditions, end) =
        new_copy (condition_slices F) (each libs.condition) source.conditions m in
      (record source { conditions = conditions }, end)

  unfoldable pub keycloak_status_deep_copy_into : Copying (Cell F) KeycloakStatusStruct
  keycloak_status_deep_copy_into source m =
      let (conditions, end) = conditions_deep_copy_into source.conditions m in
      (record source { conditions = conditions }, end)

  unfoldable pub keycloak_import_spec_deep_copy_into : Copying (Cell F) KeycloakImportSpecStruct
  keycloak_import_spec_deep_copy_into source m =
      let (substitutions, end) =
        new_copy (option_var_slices F) (each secret_option_var_deep_copy_into) source.substitutions
          m in
      (record source { substitutions = substitutions }, end)

  unfoldable pub keycloak_import_status_deep_copy_into : Copying (Cell F) KeycloakImportStatusStruct
  keycloak_import_status_deep_copy_into source m =
      let (version, one) = versioned_status_deep_copy_into source.version m in
      let (conditions, end) = conditions_deep_copy_into source.conditions one in
      (record source { version = version; conditions = conditions }, end)

  unfoldable pub keycloak_deep_copy_into : Copying (Cell F) (KeycloakStruct F)
  keycloak_deep_copy_into source m =
      let (object_meta, one) = libs.object_meta source.object_meta m in
      let (spec, two) = keycloak_spec_deep_copy_into source.spec one in
      let (status, end) = keycloak_status_deep_copy_into source.status two in
      (record source { object_meta = object_meta; spec = spec; status = status }, end)

  unfoldable pub keycloak_import_deep_copy_into : Copying (Cell F) (KeycloakImportStruct F)
  keycloak_import_deep_copy_into source m =
      let (object_meta, one) = libs.object_meta source.object_meta m in
      let (spec, two) = keycloak_import_spec_deep_copy_into source.spec one in
      let (status, end) = keycloak_import_status_deep_copy_into source.status two in
      (record source { object_meta = object_meta; spec = spec; status = status }, end)

  unfoldable pub keycloak_list_deep_copy_into : Copying (Cell F) (KeycloakListStruct F)
  keycloak_list_deep_copy_into source m =
      let (list_meta, one) = libs.list_meta source.list_meta m in
      let (items, end) =
        new_copy (keycloak_slices F) (each keycloak_deep_copy_into) source.items one in
      (record source { list_meta = list_meta; items = items }, end)

  unfoldable pub keycloak_import_list_deep_copy_into : Copying (Cell F) (KeycloakImportListStruct F)
  keycloak_import_list_deep_copy_into source m =
      let (list_meta, one) = libs.list_meta source.list_meta m in
      let (items, end) =
        new_copy (import_slices F) (each keycloak_import_deep_copy_into) source.items one in
      (record source { list_meta = list_meta; items = items }, end)
