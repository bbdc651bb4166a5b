-- ===== src/Controller/Import/Asks.antt =====
-- The reads of the import reconciler as they stand in a record, with the object or the list that each
-- of them asks for, and the way in which it deletes a job.
use rhbk_operator.Prelude.{List, [], ◌∷◌}
use rhbk_operator.Prelude.Outcome.{Outcome}
use rhbk_operator.Kube.Objects.{StatefulSet, Secret, Job}
use rhbk_operator.Kube.Client.{foreground}
use rhbk_operator.Kube.Recording.{
  Event, got_keycloak, got_stateful_set, got_secret, listed_jobs, listed_secrets, deleted_job,
}
use rhbk_operator.Kube.Pod.{SecretKeySelector}
use rhbk_operator.Api.Types.{Keycloak, KeycloakImport}
use rhbk_operator.Resources.Constants.{rhbk_import_owner_label}
use rhbk_operator.Resources.Labels.{get_owner_labels}
use rhbk_operator.Rhbk.Names.{get_stateful_set_name}

-- The instance that the import names.
abbrev pub asked_keycloak : KeycloakImport → Outcome Keycloak → Event
asked_keycloak cr = got_keycloak (record {
  namespace = cr.spec.keycloak_instance.namespace;
  name = cr.spec.keycloak_instance.name;
})

-- The stateful set of an instance.
abbrev pub asked_stateful_set : Keycloak → Outcome StatefulSet → Event
asked_stateful_set k =
    got_stateful_set (record { name = get_stateful_set_name k; namespace = k.meta.namespace })

-- A secret that a substitution refers to, in the namespace of the import.
abbrev pub asked_secret : KeycloakImport → SecretKeySelector → Outcome Secret → Event
asked_secret cr selector =
    got_secret (record { name = selector.name; namespace = cr.meta.namespace })

-- The jobs of an import: those in the namespace of the instance that carry its name.
abbrev pub asked_jobs : KeycloakImport → Outcome (List Job) → Event
asked_jobs cr =
    listed_jobs cr.spec.keycloak_instance.namespace ((rhbk_import_owner_label, cr.meta.name) ∷ [])

-- What the clean-up removes: the jobs and secrets there that carry its name and its namespace.
abbrev pub owned_jobs : KeycloakImport → Outcome (List Job) → Event
owned_jobs cr =
    listed_jobs cr.spec.keycloak_instance.namespace
      (get_owner_labels cr.meta.name cr.meta.namespace)

abbrev pub owned_secrets : KeycloakImport → Outcome (List Secret) → Event
owned_secrets cr =
    listed_secrets cr.spec.keycloak_instance.namespace
      (get_owner_labels cr.meta.name cr.meta.namespace)

abbrev pub removed_job : Job → Outcome (Unit {0}) → Event
removed_job = deleted_job foreground
