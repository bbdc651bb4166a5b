-- ===== src/Controller/Protocol/Removal.antt =====
-- The deletion of an import follows the protocol.
use rhbk_operator.Prelude.{refl, List, [], ◌∷◌}
use rhbk_operator.Prelude.Outcome.{Outcome, ok, err, panic}
use rhbk_operator.Kube.Objects.{Job, Secret}
use rhbk_operator.Kube.Exec.{Exec, lift, continue, ◌>>=◌, ◌>>◌}
use rhbk_operator.Kube.Libs.{Libs}
use rhbk_operator.Kube.Client.{foreground, Client}
use rhbk_operator.Kube.Recording.{deleted_secret, recording}
use rhbk_operator.Controller.Import.Asks.{owned_jobs, owned_secrets, removed_job}
use rhbk_operator.Api.Types.{KeycloakImport}
use rhbk_operator.Api.Conditions.{ConditionLib}
use rhbk_operator.Resources.Labels.{get_owner_labels}
use rhbk_operator.Controller.Import.{
  delete_jobs, delete_secrets, get_import_jobs, get_import_secrets, cleanup_external_resources,
}
use rhbk_operator.Controller.Protocol.{
  Phase, cleaning, removing_jobs, listing_secrets, removing_secrets, give_up, clean_secrets,
  list_old_jobs, remove_job, list_old_secrets, remove_secret,
}
use rhbk_operator.Controller.Protocol.Rules.{
  Lands, Follows, follow-at, follow-lift, follow-silent, follow-attempt, follow-branch,
}

module _ {W : Type 0} (client : Client W) (libs : Libs) (lib : ConditionLib)
    (cr : KeycloakImport) where
  follow-delete_secrets :
      (secrets : List Secret)
      → Follows libs lib
          (removing_secrets cr secrets)
          (delete_secrets (recording client) libs lib secrets)
          (Lands (removing_secrets cr []) give_up)
  unfolding delete_secrets
  follow-delete_secrets [] =
      follow-lift libs lib {A = Unit {0}} (removing_secrets cr []) (ok tt)
        (Lands (removing_secrets cr []) give_up) refl
  follow-delete_secrets (s ∷ secrets) =
      follow-branch libs lib (removing_secrets cr (s ∷ secrets)) (deleted_secret s)
        (client.delete_secret s) (λ e. lift (err e))
        (λ _. delete_secrets (recording client) libs lib secrets) (λ _. removing_secrets cr secrets)
        give_up (Lands (removing_secrets cr []) give_up) (λ r. remove_secret cr s secrets r refl)
        (λ _. follow-delete_secrets secrets)
        (λ e.
          follow-lift libs lib {A = Unit {0}} (give_up e) (err e)
            (Lands (removing_secrets cr []) give_up) refl)
        refl

  follow-secrets :
      Follows libs lib
        (listing_secrets cr)
        (get_import_secrets (recording client) libs lib cr >>= λ secrets.
          delete_secrets (recording client) libs lib secrets)
        (Lands (removing_secrets cr []) give_up)
  unfolding get_import_secrets
  follow-secrets =
      follow-branch libs lib (listing_secrets cr) (owned_secrets cr)
        (client.list_secrets cr.spec.keycloak_instance.namespace
          (get_owner_labels cr.meta.name cr.meta.namespace))
        (λ e. lift (err e)) (λ secrets. delete_secrets (recording client) libs lib secrets)
        (removing_secrets cr) give_up (Lands (removing_secrets cr []) give_up)
        (λ r. list_old_secrets cr r refl) follow-delete_secrets
        (λ e.
          follow-lift libs lib {A = Unit {0}} (give_up e) (err e)
            (Lands (removing_secrets cr []) give_up) refl)
        refl

  -- The loop over the jobs, with what comes after it.
  follow-delete_jobs :
      (jobs : List Job)
      → Follows libs lib
          (removing_jobs cr jobs)
          (delete_jobs (recording client) libs lib jobs)
          (Lands (removing_jobs cr []) give_up)
  unfolding delete_jobs
  follow-delete_jobs [] =
      follow-lift libs lib {A = Unit {0}} (removing_jobs cr []) (ok tt)
        (Lands (removing_jobs cr []) give_up) refl
  follow-delete_jobs (job ∷ jobs) =
      follow-branch libs lib (removing_jobs cr (job ∷ jobs)) (removed_job job)
        (client.delete_job foreground job) (λ e. lift (err e))
        (λ _. delete_jobs (recording client) libs lib jobs) (λ _. removing_jobs cr jobs) give_up
        (Lands (removing_jobs cr []) give_up) (λ r. remove_job cr job jobs r refl)
        (λ _. follow-delete_jobs jobs)
        (λ e.
          follow-lift libs lib {A = Unit {0}} (give_up e) (err e)
            (Lands (removing_jobs cr []) give_up) refl)
        refl

  abbrev remove_secrets : Exec (rhbk_operator.Kube.Recording.Recorded W) (Unit {0})
  remove_secrets = get_import_secrets (recording client) libs lib cr >>= λ secrets.
      delete_secrets (recording client) libs lib secrets

  after-jobs :
      (r : Outcome (Unit {0})) (q : Phase)
      → Lands (removing_jobs cr []) give_up r q
      → Follows libs lib q
          (continue r (λ e. lift (err e)) (λ _. remove_secrets))
          (Lands (removing_secrets cr []) give_up)
  after-jobs (ok _) q e =
      follow-at libs lib (removing_jobs cr []) q remove_secrets
        (Lands (removing_secrets cr []) give_up) e
        (follow-silent libs lib (removing_jobs cr []) (listing_secrets cr) remove_secrets
          (Lands (removing_secrets cr []) give_up) clean_secrets follow-secrets)
  after-jobs (err x) q e =
      follow-lift libs lib {A = Unit {0}} q (err x) (Lands (removing_secrets cr []) give_up) e
  after-jobs panic q e =
      follow-lift libs lib {A = Unit {0}} q panic (Lands (removing_secrets cr []) give_up) e

  -- From the clean-up of an import on, until its secrets are gone.
  pub follow-cleanup :
      Follows libs lib
        (cleaning cr)
        (cleanup_external_resources (recording client) libs lib cr)
        (Lands (removing_secrets cr []) give_up)
  unfolding cleanup_external_resources get_import_jobs
  follow-cleanup =
      follow-branch libs lib (cleaning cr) (owned_jobs cr)
        (client.list_jobs cr.spec.keycloak_instance.namespace
          (get_owner_labels cr.meta.name cr.meta.namespace))
        (λ e. lift (err e)) (λ jobs. delete_jobs (recording client) libs lib jobs >> remove_secrets)
        (removing_jobs cr) give_up (Lands (removing_secrets cr []) give_up)
        (λ r. list_old_jobs cr r refl)
        (λ jobs.
          follow-attempt libs lib (removing_jobs cr jobs)
            (delete_jobs (recording client) libs lib jobs) (λ e. lift (err e)) (λ _. remove_secrets)
            (Lands (removing_jobs cr []) give_up) (Lands (removing_secrets cr []) give_up)
            (follow-delete_jobs jobs) after-jobs)
        (λ e.
          follow-lift libs lib {A = Unit {0}} (give_up e) (err e)
            (Lands (removing_secrets cr []) give_up) refl)
        refl
