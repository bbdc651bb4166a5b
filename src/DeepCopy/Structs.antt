-- ===== src/DeepCopy/Structs.antt =====
-- api/v1alpha1: the types of the package as they lie in memory, each pointer, slice and map an
-- address. A type without pointers is the one that the reconcilers use.
use rhbk_operator.Prelude.{String, Bool, false, none}
use rhbk_operator.Api.Types.{KeycloakInstance}
use rhbk_operator.DeepCopy.Memory.{Pointer}

-- Types of other packages whose values may hold pointers, their zero values, and what the cells hold
-- that these point to.
pub record Foreign : Type 1 where
  pub ObjectMeta : Type 0
  pub ListMeta : Type 0
  pub Condition : Type 0
  pub SecretKeySelector : Type 0
  pub Content : Type 0
  pub zero_object_meta : ObjectMeta
  pub zero_list_meta : ListMeta
  pub zero_selector : SecretKeySelector
  pub zero_content : Content

-- metav1.TypeMeta
pub record TypeMeta : Type 0 where
  pub kind : String
  pub api_version : String

pub record SecretOptionStruct : Type 0 where
  pub value : String
  pub secret : Pointer

pub record SecretOptionVarStruct : Type 0 where
  pub name : String
  pub value : String
  pub secret : Pointer

pub record ProviderStruct : Type 0 where
  pub name : String
  pub url : SecretOptionStruct

pub record AdminUserStruct : Type 0 where
  pub username : SecretOptionStruct
  pub password : SecretOptionStruct

pub record FeaturesStruct : Type 0 where
  pub enabled : Pointer
  pub disabled : Pointer

pub record PostgresDatabaseStruct : Type 0 where
  pub host : SecretOptionStruct
  pub port : SecretOptionStruct
  pub user : SecretOptionStruct
  pub password : SecretOptionStruct

pub record KeycloakSpecStruct : Type 0 where
  pub database : Pointer
  pub additional_options : Pointer
  pub instances : Pointer
  pub trusted_ca_bundles : Pointer
  pub admin : AdminUserStruct
  pub providers : Pointer
  pub network_config : Pointer
  pub sizing : Pointer

pub record ConditionsStruct : Type 0 where
  pub conditions : Pointer

pub record KeycloakStatusStruct : Type 0 where
  pub conditions : ConditionsStruct

pub record KeycloakImportSpecStruct : Type 0 where
  pub keycloak_instance : KeycloakInstance
  pub json : String
  pub substitutions : Pointer
  pub override_if_exists : Bool

pub record VersionedStatusStruct : Type 0 where
  pub resource_versions : Pointer

pub record KeycloakImportStatusStruct : Type 0 where
  pub version : VersionedStatusStruct
  pub conditions : ConditionsStruct

pub record KeycloakStruct (F : Foreign) : Type 0 where
  pub type_meta : TypeMeta
  pub object_meta : F.ObjectMeta
  pub spec : KeycloakSpecStruct
  pub status : KeycloakStatusStruct

pub record KeycloakImportStruct (F : Foreign) : Type 0 where
  pub type_meta : TypeMeta
  pub object_meta : F.ObjectMeta
  pub spec : KeycloakImportSpecStruct
  pub status : KeycloakImportStatusStruct

pub record KeycloakListStruct (F : Foreign) : Type 0 where
  pub type_meta : TypeMeta
  pub list_meta : F.ListMeta
  pub items : Pointer

pub record KeycloakImportListStruct (F : Foreign) : Type 0 where
  pub type_meta : TypeMeta
  pub list_meta : F.ListMeta
  pub items : Pointer

-- The zero values.
abbrev pub zero_secret_option : SecretOptionStruct
zero_secret_option = record { value = ""; secret = none }

abbrev pub zero_secret_option_var : SecretOptionVarStruct
zero_secret_option_var = record { name = ""; value = ""; secret = none }

abbrev pub zero_provider : ProviderStruct
zero_provider = record { name = ""; url = zero_secret_option }

abbrev pub zero_admin_user : AdminUserStruct
zero_admin_user = record { username = zero_secret_option; password = zero_secret_option }

abbrev pub zero_features : FeaturesStruct
zero_features = record { enabled = none; disabled = none }

abbrev pub zero_postgres_database : PostgresDatabaseStruct
zero_postgres_database = record {
  host = zero_secret_option;
  port = zero_secret_option;
  user = zero_secret_option;
  password = zero_secret_option;
}

abbrev pub zero_keycloak_spec : KeycloakSpecStruct
zero_keycloak_spec = record {
  database = none;
  additional_options = none;
  instances = none;
  trusted_ca_bundles = none;
  admin = zero_admin_user;
  providers = none;
  network_config = none;
  sizing = none;
}

abbrev pub zero_conditions : ConditionsStruct
zero_conditions = record { conditions = none }

abbrev pub zero_keycloak_status : KeycloakStatusStruct
zero_keycloak_status = record { conditions = zero_conditions }

abbrev pub zero_keycloak_import_spec : KeycloakImportSpecStruct
zero_keycloak_import_spec = record {
  keycloak_instance = record { namespace = ""; name = "" };
  json = "";
  substitutions = none;
  override_if_exists = false;
}

abbrev pub zero_versioned_status : VersionedStatusStruct
zero_versioned_status = record { resource_versions = none }

abbrev pub zero_keycloak_import_status : KeycloakImportStatusStruct
zero_keycloak_import_status = record {
  version = zero_versioned_status;
  conditions = zero_conditions;
}

module _ (F : Foreign) where
  abbrev pub zero_keycloak : KeycloakStruct F
  zero_keycloak = record {
    type_meta = record { kind = ""; api_version = "" };
    object_meta = F.zero_object_meta;
    spec = zero_keycloak_spec;
    status = zero_keycloak_status;
  }

  abbrev pub zero_keycloak_import : KeycloakImportStruct F
  zero_keycloak_import = record {
    type_meta = record { kind = ""; api_version = "" };
    object_meta = F.zero_object_meta;
    spec = zero_keycloak_import_spec;
    status = zero_keycloak_import_status;
  }

  abbrev pub zero_keycloak_list : KeycloakListStruct F
  zero_keycloak_list = record {
    type_meta = record { kind = ""; api_version = "" };
    list_meta = F.zero_list_meta;
    items = none;
  }

  abbrev pub zero_keycloak_import_list : KeycloakImportListStruct F
  zero_keycloak_import_list = record {
    type_meta = record { kind = ""; api_version = "" };
    list_meta = F.zero_list_meta;
    items = none;
  }
