-- ===== src/DeepCopy/Storages.antt =====
-- How the values behind the pointers inside the custom resources are stored, the elements of the
-- slices and the entries of the maps.
use rhbk_operator.Prelude.{String, refl, false, List, []}
use rhbk_operator.Prelude.Maps.{Map}
use rhbk_operator.Kube.Meta.{Int32}
use rhbk_operator.Api.Types.{NetworkConfig, RealmSizing, KeycloakInstance}
use rhbk_operator.DeepCopy.Memory.{Storage}
use rhbk_operator.DeepCopy.Structs.{
  Foreign, SecretOptionVarStruct, ProviderStruct, PostgresDatabaseStruct, KeycloakStruct,
  KeycloakImportStruct, zero_postgres_database,
}
use rhbk_operator.DeepCopy.Cells.{
  Cell, selector_cell, strings_cell, option_vars_cell, providers_cell, conditions_cell,
  keycloaks_cell, imports_cell, map_cell, int32_cell, reference_cell, network_config_cell,
  sizing_cell, database_cell, keycloak_instance_cell,
}

module _ (F : Foreign) where
  abbrev get_selector : Cell F → F.SecretKeySelector
  get_selector (selector_cell a) = a
  get_selector _ = F.zero_selector

  abbrev pub selectors : Storage (Cell F) (F.SecretKeySelector)
  selectors = record {
    put = selector_cell;
    get = get_selector;
    get-put = λ a. refl;
    zero_value = F.zero_selector;
  }

  abbrev get_strings : Cell F → List String
  get_strings (strings_cell a) = a
  get_strings _ = []

  abbrev pub string_slices : Storage (Cell F) (List String)
  string_slices = record {
    put = strings_cell;
    get = get_strings;
    get-put = λ a. refl;
    zero_value = [];
  }

  abbrev get_option_vars : Cell F → List SecretOptionVarStruct
  get_option_vars (option_vars_cell a) = a
  get_option_vars _ = []

  abbrev pub option_var_slices : Storage (Cell F) (List SecretOptionVarStruct)
  option_var_slices = record {
    put = option_vars_cell;
    get = get_option_vars;
    get-put = λ a. refl;
    zero_value = [];
  }

  abbrev get_providers : Cell F → List ProviderStruct
  get_providers (providers_cell a) = a
  get_providers _ = []

  abbrev pub provider_slices : Storage (Cell F) (List ProviderStruct)
  provider_slices = record {
    put = providers_cell;
    get = get_providers;
    get-put = λ a. refl;
    zero_value = [];
  }

  abbrev get_conditions : Cell F → List F.Condition
  get_conditions (conditions_cell a) = a
  get_conditions _ = []

  abbrev pub condition_slices : Storage (Cell F) (List F.Condition)
  condition_slices = record {
    put = conditions_cell;
    get = get_conditions;
    get-put = λ a. refl;
    zero_value = [];
  }

  abbrev get_keycloaks : Cell F → List (KeycloakStruct F)
  get_keycloaks (keycloaks_cell a) = a
  get_keycloaks _ = []

  abbrev pub keycloak_slices : Storage (Cell F) (List (KeycloakStruct F))
  keycloak_slices = record {
    put = keycloaks_cell;
    get = get_keycloaks;
    get-put = λ a. refl;
    zero_value = [];
  }

  abbrev get_imports : Cell F → List (KeycloakImportStruct F)
  get_imports (imports_cell a) = a
  get_imports _ = []

  abbrev pub import_slices : Storage (Cell F) (List (KeycloakImportStruct F))
  import_slices = record {
    put = imports_cell;
    get = get_imports;
    get-put = λ a. refl;
    zero_value = [];
  }

  abbrev get_map : Cell F → Map String
  get_map (map_cell a) = a
  get_map _ = []

  abbrev pub maps : Storage (Cell F) (Map String)
  maps = record { put = map_cell; get = get_map; get-put = λ a. refl; zero_value = [] }

  abbrev get_int32 : Cell F → Int32
  get_int32 (int32_cell a) = a
  get_int32 _ = 0

  abbrev pub int32s : Storage (Cell F) (Int32)
  int32s = record { put = int32_cell; get = get_int32; get-put = λ a. refl; zero_value = 0 }

  abbrev get_reference : Cell F → String
  get_reference (reference_cell a) = a
  get_reference _ = ""

  abbrev pub references : Storage (Cell F) (String)
  references = record {
    put = reference_cell;
    get = get_reference;
    get-put = λ a. refl;
    zero_value = "";
  }

  abbrev get_network_config : Cell F → NetworkConfig
  get_network_config (network_config_cell a) = a
  get_network_config _ = record { proxy = false; hostname = "" }

  abbrev pub network_configs : Storage (Cell F) (NetworkConfig)
  network_configs = record {
    put = network_config_cell;
    get = get_network_config;
    get-put = λ a. refl;
    zero_value = record { proxy = false; hostname = "" };
  }

  abbrev get_sizing : Cell F → RealmSizing
  get_sizing (sizing_cell a) = a
  get_sizing _ = record {
    logins_per_second = 0;
    client_credentials_grants_per_second = 0;
    refresh_token_grants_per_second = 0;
    cached_sessions = 0;
    disable_cpu_limits = false;
  }

  abbrev pub sizings : Storage (Cell F) (RealmSizing)
  sizings = record {
    put = sizing_cell;
    get = get_sizing;
    get-put = λ a. refl;
    zero_value = record {
      logins_per_second = 0;
      client_credentials_grants_per_second = 0;
      refresh_token_grants_per_second = 0;
      cached_sessions = 0;
      disable_cpu_limits = false;
    };
  }

  abbrev get_database : Cell F → PostgresDatabaseStruct
  get_database (database_cell a) = a
  get_database _ = zero_postgres_database

  abbrev pub databases : Storage (Cell F) (PostgresDatabaseStruct)
  databases = record {
    put = database_cell;
    get = get_database;
    get-put = λ a. refl;
    zero_value = zero_postgres_database;
  }

  abbrev get_keycloak_instance : Cell F → KeycloakInstance
  get_keycloak_instance (keycloak_instance_cell a) = a
  get_keycloak_instance _ = record { namespace = ""; name = "" }

  abbrev pub keycloak_instances : Storage (Cell F) (KeycloakInstance)
  keycloak_instances = record {
    put = keycloak_instance_cell;
    get = get_keycloak_instance;
    get-put = λ a. refl;
    zero_value = record { namespace = ""; name = "" };
  }
