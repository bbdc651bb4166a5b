-- ===== src/Controller/Watch.antt =====
-- The events that start `KeycloakImportReconciler`: the predicate on jobs, and the three functions
-- that map a changed object to the imports to reconcile. Where the list of imports fails, the code
-- logs the error and starts nothing.
pub mod Owners
pub mod Foreign
pub mod Requests
pub mod Choices
pub mod Handlers
use rhbk_operator.Prelude.{Bool, true, false, not, ◌&&◌, List, [], ◌∷◌, ◌==◌, if◌then◌else◌}
use rhbk_operator.Prelude.Outcome.{Outcome, ok, ◌>>=◌}
use rhbk_operator.Kube.Meta.{Key, key_of}
use rhbk_operator.Kube.Objects.{Secret, Job}
use rhbk_operator.Kube.Exec.{Exec, pure, lift, attempt}
use rhbk_operator.Kube.Libs.{Libs}
use rhbk_operator.Kube.Client.{Client}
use rhbk_operator.Api.Types.{Keycloak, KeycloakImport, has_secret_reference}
use rhbk_operator.Resources.Constants.{rhbk_import_owner_label}
use rhbk_operator.Resources.Labels.{match_set, get_owner_labels}
use rhbk_operator.Resources.Status.{is_job_completed}

pub data JobEvent : Type 0 where
  created deleted : JobEvent
  updated : (old current : Job) → JobEvent

unfoldable pub wants_job_event : JobEvent → Bool
unfolding is_job_completed
wants_job_event created = false
wants_job_event deleted = false
wants_job_event (updated old current) = not (is_job_completed old) && is_job_completed current

-- The tests of the three loops.
unfoldable pub keycloak_concerns : Keycloak → KeycloakImport → Bool
keycloak_concerns rhbk cr =
    (cr.spec.keycloak_instance.name == rhbk.meta.name)
    && (cr.spec.keycloak_instance.namespace == rhbk.meta.namespace)

module _ (libs : Libs) where
  unfoldable pub secret_concerns : Secret → KeycloakImport → Outcome Bool
  unfolding match_set has_secret_reference
  secret_concerns secret cr =
      if match_set libs secret.meta.labels ((rhbk_import_owner_label, cr.meta.name) ∷ [])
      then ok true
      else has_secret_reference cr.spec secret.meta.name

  unfoldable pub job_concerns : Job → KeycloakImport → Bool
  unfolding match_set get_owner_labels
  job_concerns job cr =
      match_set libs job.meta.labels (get_owner_labels cr.meta.name cr.meta.namespace)

-- The loop over the imports, with the test of the function.
unfoldable pub requests : (KeycloakImport → Outcome Bool) → List KeycloakImport → Outcome (List Key)
requests concerns [] = ok []
requests concerns (cr ∷ imports) = do
  concerned ← concerns cr
  rest ← requests concerns imports
  ok (if concerned then key_of cr.meta ∷ rest else rest)

module _ {W : Type 0} (client : Client W) (libs : Libs) where
  unfoldable pub list_requests : (KeycloakImport → Outcome Bool) → Exec W (List Key)
  unfolding requests
  list_requests concerns =
      attempt client.list_imports (λ _. pure []) λ imports. lift (requests concerns imports)

  unfoldable pub handle_secret_changed : Secret → Exec W (List Key)
  unfolding list_requests secret_concerns
  handle_secret_changed secret = list_requests (secret_concerns libs secret)

  unfoldable pub handle_rhbk_changed : Keycloak → Exec W (List Key)
  unfolding list_requests keycloak_concerns
  handle_rhbk_changed rhbk = list_requests (λ cr. ok (keycloak_concerns rhbk cr))

  unfoldable pub handle_job_changed : Job → Exec W (List Key)
  unfolding list_requests job_concerns
  handle_job_changed job = list_requests (λ cr. ok (job_concerns libs job cr))
