-- ===== src/Api/Types.antt =====
-- api/v1alpha1/keycloak_types.go and keycloakimport_types.go: the two custom resources.
pub mod Panics
use rhbk_operator.Prelude.{
  ℕ, String, Bool, true, false, Option, none, some, List, [], ◌∷◌, ◌==◌, if◌then◌else◌,
}
use rhbk_operator.Prelude.Outcome.{Outcome, ok, panic}
use rhbk_operator.Kube.Meta.{Int32, Meta}
use rhbk_operator.Kube.Pod.{SecretKeySelector}

-- metav1.Condition
pub record Condition : Type 0 where
  pub kind : String
  pub status : String
  pub last_transition_time : ℕ
  pub reason : String
  pub message : String

pub record RealmSizing : Type 0 where
  pub logins_per_second : Int32
  pub client_credentials_grants_per_second : Int32
  pub refresh_token_grants_per_second : Int32
  pub cached_sessions : Int32
  pub disable_cpu_limits : Bool

pub record NetworkConfig : Type 0 where
  pub proxy : Bool
  pub hostname : String

pub record SecretOption : Type 0 where
  pub value : String
  pub secret : Option SecretKeySelector

pub record SecretOptionVar : Type 0 where
  pub name : String
  pub value : String
  pub secret : Option SecretKeySelector

pub record Provider : Type 0 where
  pub name : String
  pub url : SecretOption

pub record AdminUser : Type 0 where
  pub username : SecretOption
  pub password : SecretOption

pub record PostgresDatabase : Type 0 where
  pub host : SecretOption
  pub port : SecretOption
  pub user : SecretOption
  pub password : SecretOption

pub record KeycloakSpec : Type 0 where
  pub database : Option PostgresDatabase
  pub additional_options : List SecretOptionVar
  pub instances : Option Int32
  pub trusted_ca_bundles : Option String
  pub admin : AdminUser
  pub providers : List Provider
  pub network_config : Option NetworkConfig
  pub sizing : Option RealmSizing

-- `KeycloakStatus` holds the conditions and nothing else.
pub record Keycloak : Type 0 where
  pub meta : Meta
  pub spec : KeycloakSpec
  pub conditions : List Condition

pub record KeycloakInstance : Type 0 where
  pub namespace : String
  pub name : String

pub record KeycloakImportSpec : Type 0 where
  pub keycloak_instance : KeycloakInstance
  pub json : String
  pub substitutions : List SecretOptionVar
  pub override_if_exists : Bool

pub record KeycloakImport : Type 0 where
  pub meta : Meta
  pub spec : KeycloakImportSpec
  pub conditions : List Condition

-- `ki.HasSecretReference(secretName)`, the loop over `ki.Substitutions`. `substitution.Secret` is a
-- pointer, and the code reads its name without a test: a nil pointer panics.
unfoldable pub references_secret : List SecretOptionVar → String → Outcome Bool
references_secret [] secret_name = ok false
references_secret (substitution ∷ rest) secret_name = elim substitution.secret [
  | none ↦ panic
  | some selector ↦
      let others = references_secret rest secret_name in
      if selector.name == secret_name then ok true else others
]

unfoldable pub has_secret_reference : KeycloakImportSpec → String → Outcome Bool
unfolding references_secret
has_secret_reference ki secret_name = references_secret ki.substitutions secret_name
