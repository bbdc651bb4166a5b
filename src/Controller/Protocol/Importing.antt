-- ===== src/Controller/Protocol/Importing.antt =====
-- The part of a run that imports: the instance, its stateful set, the secrets and the jobs.
use rhbk_operator.Prelude.{◌≡◌, refl, Bool, true, false, none, some, [], ◌∷◌}
use rhbk_operator.Prelude.Outcome.{Outcome, ok, err, panic}
use rhbk_operator.Kube.Objects.{StatefulSet, Secret}
use rhbk_operator.Kube.Exec.{continue, attempt}
use rhbk_operator.Kube.Libs.{Libs}
use rhbk_operator.Kube.Client.{Client}
use rhbk_operator.Kube.Recording.{recording}
use rhbk_operator.Controller.Import.Asks.{asked_keycloak, asked_stateful_set, asked_jobs}
use rhbk_operator.Api.Types.{Keycloak, KeycloakImport}
use rhbk_operator.Api.Conditions.{ConditionLib, IsConditionLib, is_ready}
use rhbk_operator.Resources.Constants.{rhbk_import_owner_label}
use rhbk_operator.Rhbk.Names.{get_stateful_set_name}
use rhbk_operator.Realm
use rhbk_operator.Controller.Reply.{Reply}
use rhbk_operator.Controller.Import.{
  handle_error, from_jobs, import_realm, from_keycloak, reconcile_import,
}
use rhbk_operator.Controller.Protocol.{
  Phase, looking, located, fetching, listing, sweeping, reporting, blame, not_up, look, find,
  list_jobs,
}
use rhbk_operator.Controller.Protocol.Rules.{
  Ends, Follows, follow-lift, follow-silent, follow-at, follow-attempt, follow-branch,
}
use rhbk_operator.Controller.Protocol.Fetching.{Secured, follow-create_or_update}
use rhbk_operator.Controller.Protocol.Reporting.{follow-handle_error}
use rhbk_operator.Controller.Protocol.Settling.{follow-from_jobs}

module _ {W : Type 0} (client : Client W) (libs : Libs) (lib : ConditionLib)
    (laws : IsConditionLib lib) (cr : KeycloakImport) where
  follow-list :
      (s : StatefulSet) (r : Outcome Secret) (q : Phase)
      → Secured cr s r q
      → Follows libs lib q
          (continue r
            (λ e. handle_error (recording client) libs lib cr (some e) "Realm secret not ready")
            λ (secret : Secret).
              attempt
                ((recording client).list_jobs cr.spec.keycloak_instance.namespace
                  ((rhbk_import_owner_label, cr.meta.name) ∷ []))
                (λ e.
                  handle_error (recording client) libs lib cr (some e) "Failed to fetch import job")
                (from_jobs (recording client) libs lib cr s secret.meta.resource_version))
          Ends
  follow-list s (ok secret) q e =
      let version = secret.meta.resource_version in
      follow-at libs lib (listing cr s version) q
        (attempt
          ((recording client).list_jobs cr.spec.keycloak_instance.namespace
            ((rhbk_import_owner_label, cr.meta.name) ∷ []))
          (λ e. handle_error (recording client) libs lib cr (some e) "Failed to fetch import job")
          (from_jobs (recording client) libs lib cr s version))
        Ends e
        (follow-branch libs lib (listing cr s version) (asked_jobs cr)
          (client.list_jobs cr.spec.keycloak_instance.namespace
            ((rhbk_import_owner_label, cr.meta.name) ∷ []))
          (λ e. handle_error (recording client) libs lib cr (some e) "Failed to fetch import job")
          (from_jobs (recording client) libs lib cr s version) (sweeping cr s version) (blame cr)
          Ends (λ r. list_jobs cr s version r refl)
          (follow-from_jobs client libs lib laws cr s version)
          (λ x. follow-handle_error client libs lib laws cr (some x) "Failed to fetch import job")
          refl)
  follow-list s (err x) q e =
      follow-at libs lib (blame cr x) q
        (handle_error (recording client) libs lib cr (some x) "Realm secret not ready") Ends e
        (follow-handle_error client libs lib laws cr (some x) "Realm secret not ready")
  follow-list s panic q e = follow-lift libs lib {A = Reply} q panic Ends e

  follow-import_realm :
      (s : StatefulSet)
      → Follows libs lib
          (fetching cr s cr.spec.substitutions)
          (import_realm (recording client) libs lib cr s)
          Ends
  unfolding import_realm
  follow-import_realm s =
      follow-attempt libs lib (fetching cr s cr.spec.substitutions)
        (Realm.ImportSecret.create_or_update (recording client) libs cr)
        (λ e. handle_error (recording client) libs lib cr (some e) "Realm secret not ready")
        (λ (secret : Secret).
          attempt
            ((recording client).list_jobs cr.spec.keycloak_instance.namespace
              ((rhbk_import_owner_label, cr.meta.name) ∷ []))
            (λ e. handle_error (recording client) libs lib cr (some e) "Failed to fetch import job")
            (from_jobs (recording client) libs lib cr s secret.meta.resource_version))
        (Secured cr s) Ends (follow-create_or_update client libs lib cr s) (follow-list s)

  follow-keycloak :
      (k : Keycloak) (b : Bool)
      → is_ready lib k.conditions ≡ b
      → Follows libs lib (located cr k) (from_keycloak (recording client) libs lib cr k) Ends
  unfolding from_keycloak
  follow-keycloak k true e = rw e (
      follow-branch libs lib (located cr k) (asked_stateful_set k)
        (client.get_stateful_set
          (record { name = get_stateful_set_name k; namespace = k.meta.namespace }))
        (λ x. handle_error (recording client) libs lib cr (some x) "RHBK deployment not ready")
        (import_realm (recording client) libs lib cr) (λ s. fetching cr s cr.spec.substitutions)
        (blame cr) Ends (λ r. find cr k r e refl) follow-import_realm
        (λ x. follow-handle_error client libs lib laws cr (some x) "RHBK deployment not ready")
        refl)
  follow-keycloak k false e = rw e (
      follow-silent libs lib (located cr k) (reporting cr false)
        (handle_error (recording client) libs lib cr none "RHBK instance not ready") Ends (not_up e)
        (follow-handle_error client libs lib laws cr none "RHBK instance not ready"))

  pub follow-reconcile_import :
      Follows libs lib (looking cr) (reconcile_import (recording client) libs lib cr) Ends
  unfolding reconcile_import
  follow-reconcile_import =
      follow-branch libs lib (looking cr) (asked_keycloak cr)
        (client.get_keycloak (record {
          namespace = cr.spec.keycloak_instance.namespace;
          name = cr.spec.keycloak_instance.name;
        }))
        (λ x. handle_error (recording client) libs lib cr (some x) "Failed to fetch RHBK instance")
        (from_keycloak (recording client) libs lib cr) (located cr) (blame cr) Ends
        (λ r. look cr r refl) (λ k. follow-keycloak k (is_ready lib k.conditions) refl)
        (λ x. follow-handle_error client libs lib laws cr (some x) "Failed to fetch RHBK instance")
        refl
