-- ===== src/Realm/ImportSecret.antt =====
-- internal/resources/realm/realm_import_secret.go: the secret that holds the expanded realm.
pub mod Substitutions
use rhbk_operator.Prelude.{String, true, Option, none, some, List, [], ◌∷◌, format_bool, concat}
use rhbk_operator.Prelude.Maps.{Map, insert, get_string}
use rhbk_operator.Prelude.Outcome.{Error, Outcome, ok, err, panic}
use rhbk_operator.Kube.Meta.{named}
use rhbk_operator.Kube.Pod.{SecretKeySelector}
use rhbk_operator.Kube.Objects.{Secret}
use rhbk_operator.Kube.Exec.{Exec, pure, lift, attempt, ◌>>=◌}
use rhbk_operator.Kube.Libs.{Libs}
use rhbk_operator.Kube.Client.{Client}
use rhbk_operator.Api.Types.{SecretOptionVar, KeycloakImport}
use rhbk_operator.Resources.Constants.{rhbk_watched_resource_label}
use rhbk_operator.Resources.Labels.{get_owner_labels}
use rhbk_operator.Resources.Escape.{escape_string}
use rhbk_operator.Realm.Names.{get_import_job_secret_name, get_import_job_secret_realm_name}

-- `expandTemplate(t, substitutions)`
unfoldable pub expand_template : Libs → String → Map String → Outcome String
expand_template libs t substitutions = elim (libs.parse_template "missingkey=error" "%" "%" t) [
  | ok execute ↦ execute substitutions
  | err e ↦ err e
  | panic ↦ panic
]

-- What `s.MutateFn()` sets once the realm is there.
unfoldable pub fill_secret : KeycloakImport → Secret → String → Secret
unfolding get_owner_labels insert
fill_secret cr resource realm = record {
  meta = record resource.meta {
    labels = some (
        insert rhbk_watched_resource_label (format_bool true)
          (get_owner_labels cr.meta.name cr.meta.namespace));
  };
  contents = (get_import_job_secret_realm_name cr, realm) ∷ [];
}

-- `s.MutateFn()`
unfoldable pub mutate_fn : Libs → KeycloakImport → Map String → Secret → Outcome Secret
unfolding expand_template fill_secret
mutate_fn libs cr substitutions resource = elim (expand_template libs cr.spec.json substitutions) [
  | ok realm ↦ ok (fill_secret cr resource realm)
  | err e ↦ err e
  | panic ↦ panic
]

-- fmt.Errorf("failed to escape value for key %s: %w", name, err)
unfoldable pub escape_error : String → Error → Error
escape_error name e = record e {
  message = concat ("failed to escape value for key " ∷ name ∷ ": " ∷ e.message ∷ []);
}

module _ {W : Type 0} (client : Client W) where
  -- `sub.Secret` is read without a test for nil.
  unfoldable pub fetch_selected : KeycloakImport → String → Option SecretKeySelector → Exec W String
  unfolding escape_string get_string escape_error
  fetch_selected cr name none = lift panic
  fetch_selected cr name (some selector) = do
    secret ← client.get_secret (record { name = selector.name; namespace = cr.meta.namespace })
    attempt (lift (escape_string (get_string selector.key (some secret.contents))))
        (λ e. lift (err (escape_error name e))) λ escaped. pure escaped

  -- One round of the loop over the substitutions.
  unfoldable pub fetch_substitution : KeycloakImport → SecretOptionVar → Exec W String
  unfolding fetch_selected
  fetch_substitution cr sub = fetch_selected cr sub.name sub.secret

  unfoldable pub fetch_substitutions :
      KeycloakImport → List SecretOptionVar → Map String → Exec W (Map String)
  unfolding fetch_substitution insert
  fetch_substitutions cr [] substitutions = pure substitutions
  fetch_substitutions cr (sub ∷ subs) substitutions = do
    value ← fetch_substitution cr sub
    fetch_substitutions cr subs (insert sub.name value substitutions)

  -- `s.CreateOrUpdate(ctx, c)`, which leaves the secret in `s.Resource`.
  unfoldable pub create_or_update : Libs → KeycloakImport → Exec W Secret
  unfolding fetch_substitutions mutate_fn
  create_or_update libs cr = do
    substitutions ← fetch_substitutions cr cr.spec.substitutions []
    client.apply_secret (named (get_import_job_secret_name cr) cr.spec.keycloak_instance.namespace)
        (mutate_fn libs cr substitutions)
