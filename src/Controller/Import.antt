-- ===== src/Controller/Import.antt =====
-- internal/controller/keycloakimport_controller.go: `KeycloakImportReconciler`.
pub mod Asks
pub mod Jobs
pub mod Settling
pub mod Gates
pub mod Phases
pub mod Deletion
pub mod Cleanup
use rhbk_operator.Prelude.{
  String, Bool, not, ◌&&◌, Option, none, some, List, [], ◌∷◌, ◌==◌, if◌then◌else◌, is_some,
}
use rhbk_operator.Prelude.Maps.{Map, insert, get_string}
use rhbk_operator.Prelude.Outcome.{Error, Outcome, ok, panic}
use rhbk_operator.Kube.Meta.{Key}
use rhbk_operator.Kube.Objects.{StatefulSet, Secret, Job}
use rhbk_operator.Kube.Exec.{Exec, pure, lift, attempt, ◌>>=◌, ◌>>◌}
use rhbk_operator.Kube.Libs.{Libs}
use rhbk_operator.Kube.Client.{foreground, Client}
use rhbk_operator.Api.Types.{Keycloak, KeycloakImport}
use rhbk_operator.Api.Conditions.{ConditionLib, is_ready}
use rhbk_operator.Resources.Constants.{rhbk_import_owner_label}
use rhbk_operator.Resources.Labels.{match_set, get_owner_labels}
use rhbk_operator.Resources.Status.{is_job_completed}
use rhbk_operator.Rhbk.Names.{get_stateful_set_name}
use rhbk_operator.Realm.Names.{get_import_job_annotation}
use rhbk_operator.Realm
use rhbk_operator.Controller.Reply.{
  Reply, done, failed, failed_again, return_error, not_ready, ready,
}

abbrev pub realm_import_finalizer : String
realm_import_finalizer = "rhbk.stakater.com/finalizer"

-- `job.Labels[realm.GetImportJobAnnotation(cr)] == importSecret.Resource.ResourceVersion`
unfoldable pub is_current : KeycloakImport → String → Job → Bool
unfolding get_string
is_current cr version job = get_string (get_import_job_annotation cr) job.meta.labels == version

-- An assignment into a map, which panics if the map is nil.
unfoldable pub assign : String → String → Option (Map String) → Outcome (Option (Map String))
unfolding insert
assign key value none = panic
assign key value (some m) = ok (some (insert key value m))

-- `if m == nil { m = make(map[string]string) }`
unfoldable pub make_if_nil : Option (Map String) → Option (Map String)
make_if_nil none = some []
make_if_nil (some m) = some m

-- The stateful set that `rolloutChanges` sends.
unfoldable pub annotate : KeycloakImport → StatefulSet → String → Outcome StatefulSet
unfolding assign make_if_nil
annotate kci stateful_set version =
    let spec = stateful_set.spec in
    let template = spec.template in
    elim (assign (get_import_job_annotation kci) version (make_if_nil template.annotations)) [
      | ok annotations ↦ ok (record stateful_set {
        spec = record spec { template = record template { annotations = annotations } };
      })
      | Outcome.err e ↦ Outcome.err e
      | panic ↦ panic
    ]

-- `!resources.MatchSet(annotations, …) && resources.IsJobCompleted(found)`
unfoldable pub needs_rollout : Libs → KeycloakImport → StatefulSet → String → Job → Bool
unfolding match_set is_job_completed
needs_rollout libs cr stateful_set version job =
    not (
      match_set libs stateful_set.spec.template.annotations
        ((get_import_job_annotation cr, version) ∷ []))
    && is_job_completed job

module _ {W : Type 0} (client : Client W) (libs : Libs) (lib : ConditionLib) where
  unfoldable pub handle_error : KeycloakImport → Option Error → String → Exec W Reply
  unfolding not_ready
  handle_error cr e msg w =
      return_error
        (client.update_import_status
          (record cr { conditions = not_ready lib (client.now w) e msg cr.conditions }))
        w

  unfoldable pub handle_success : KeycloakImport → Exec W Reply
  unfolding ready
  handle_success cr w =
      return_error
        (client.update_import_status
          (record cr { conditions = ready lib (client.now w) cr.conditions }))
        w

  unfoldable pub delete_jobs : List Job → Exec W Unit
  delete_jobs [] = pure tt
  delete_jobs (job ∷ jobs) = do client.delete_job foreground job; delete_jobs jobs

  unfoldable pub delete_secrets : List Secret → Exec W Unit
  delete_secrets [] = pure tt
  delete_secrets (s ∷ secrets) = do client.delete_secret s; delete_secrets secrets

  -- `realm.GetImportJobs` and `realm.GetImportSecrets`
  unfoldable pub get_import_jobs : KeycloakImport → Exec W (List Job)
  unfolding get_owner_labels
  get_import_jobs kci =
      client.list_jobs kci.spec.keycloak_instance.namespace
        (get_owner_labels kci.meta.name kci.meta.namespace)

  unfoldable pub get_import_secrets : KeycloakImport → Exec W (List Secret)
  unfolding get_owner_labels
  get_import_secrets kci =
      client.list_secrets kci.spec.keycloak_instance.namespace
        (get_owner_labels kci.meta.name kci.meta.namespace)

  unfoldable pub cleanup_external_resources : KeycloakImport → Exec W Unit
  unfolding delete_jobs delete_secrets get_import_jobs get_import_secrets
  cleanup_external_resources cr = do
    jobs ← get_import_jobs cr
    delete_jobs jobs
    secrets ← get_import_secrets cr
    delete_secrets secrets

  -- `r.rolloutChanges(ctx, kci, statefulSet, version)`
  unfoldable pub rollout_changes : KeycloakImport → StatefulSet → String → Exec W Unit
  unfolding annotate
  rollout_changes kci stateful_set version = do
    annotated ← lift (annotate kci stateful_set version)
    client.update_stateful_set annotated

  -- The loop over the listed jobs: it deletes them up to the first that is current.
  unfoldable pub find_job : KeycloakImport → String → List Job → Exec W (Option Job)
  unfolding is_current
  find_job cr version [] = pure none
  find_job cr version (job ∷ jobs) =
      if is_current cr version job
      then pure (some job)
      else do client.delete_job foreground job; find_job cr version jobs

  -- No job is current: build one, create it, and wait for the next event.
  unfoldable pub start_job : KeycloakImport → StatefulSet → String → Exec W Reply
  unfolding handle_error
  start_job cr stateful_set version =
      attempt (lift (Realm.ImportJob.build cr stateful_set version))
        (λ e. handle_error cr (some e) "Failed to build import job")
        λ job.
          attempt (client.create_job job) (λ e. pure (failed_again e))
            λ _. handle_error cr none "Wait for new import job to be ready"

  unfoldable pub finish_import : KeycloakImport → StatefulSet → String → Job → Exec W Reply
  unfolding rollout_changes needs_rollout handle_success
  finish_import cr stateful_set version job =
      if needs_rollout libs cr stateful_set version job
      then attempt (rollout_changes cr stateful_set version) (λ e. pure (failed_again e))
          (λ _. handle_success cr)
      else handle_success cr

  unfoldable pub continue_with : KeycloakImport → StatefulSet → String → Option Job → Exec W Reply
  unfolding start_job finish_import
  continue_with cr stateful_set version none = start_job cr stateful_set version
  continue_with cr stateful_set version (some job) = finish_import cr stateful_set version job

  -- `Reconcile` from the listed jobs on.
  unfoldable pub from_jobs : KeycloakImport → StatefulSet → String → List Job → Exec W Reply
  unfolding find_job continue_with handle_error
  from_jobs cr stateful_set version jobs =
      attempt (find_job cr version jobs) (λ e. handle_error cr (some e) "Failed to delete old job")
        (continue_with cr stateful_set version)

  -- `Reconcile` from the secret on.
  unfoldable pub import_realm : KeycloakImport → StatefulSet → Exec W Reply
  unfolding from_jobs handle_error
  import_realm cr stateful_set =
      attempt (Realm.ImportSecret.create_or_update client libs cr)
        (λ e. handle_error cr (some e) "Realm secret not ready")
        λ secret.
          attempt
            (client.list_jobs cr.spec.keycloak_instance.namespace
              ((rhbk_import_owner_label, cr.meta.name) ∷ []))
            (λ e. handle_error cr (some e) "Failed to fetch import job")
            (from_jobs cr stateful_set secret.meta.resource_version)

  -- `Reconcile`, once the Keycloak instance is there.
  unfoldable pub from_keycloak : KeycloakImport → Keycloak → Exec W Reply
  unfolding import_realm handle_error is_ready
  from_keycloak cr keycloak =
      if not (is_ready lib keycloak.conditions)
      then handle_error cr none "RHBK instance not ready"
      else (attempt
          (client.get_stateful_set
            (record { name = get_stateful_set_name keycloak; namespace = keycloak.meta.namespace }))
          (λ e. handle_error cr (some e) "RHBK deployment not ready") (import_realm cr))

  -- `Reconcile` from the Keycloak instance on.
  unfoldable pub reconcile_import : KeycloakImport → Exec W Reply
  unfolding from_keycloak handle_error
  reconcile_import cr =
      attempt
        (client.get_keycloak (record {
          namespace = cr.spec.keycloak_instance.namespace;
          name = cr.spec.keycloak_instance.name;
        }))
        (λ e. handle_error cr (some e) "Failed to fetch RHBK instance") (from_keycloak cr)

  -- `Reconcile` from the finalizer on: it is added if it is missing.
  unfoldable pub ensure_finalizer : KeycloakImport → Exec W Reply
  unfolding reconcile_import
  ensure_finalizer cr =
      if not (libs.contains_finalizer cr.meta realm_import_finalizer)
      then attempt
          (client.update_import
            (record cr { meta = libs.add_finalizer cr.meta realm_import_finalizer }))
          (λ e. pure (failed e)) reconcile_import
      else reconcile_import cr

  -- The branch for a deleted resource; it goes on after the update.
  unfoldable pub handle_deletion : KeycloakImport → Exec W Reply
  unfolding ensure_finalizer cleanup_external_resources
  handle_deletion cr =
      if not (libs.contains_finalizer cr.meta realm_import_finalizer)
      then pure done
      else (attempt (cleanup_external_resources cr) (λ e. pure (failed e))
          λ _.
            attempt
              (client.update_import
                (record cr { meta = libs.remove_finalizer cr.meta realm_import_finalizer }))
              (λ e. pure (failed e)) ensure_finalizer)

  unfoldable pub reconcile_found : KeycloakImport → Exec W Reply
  unfolding handle_deletion ensure_finalizer
  reconcile_found cr =
      if is_some cr.meta.deletion_timestamp then handle_deletion cr else ensure_finalizer cr

  unfoldable pub reconcile : Key → Exec W Reply
  unfolding reconcile_found
  reconcile key =
      attempt (client.get_import key) (λ e. if e.not_found then pure done else pure (failed e))
        reconcile_found
