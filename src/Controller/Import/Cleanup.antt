-- ===== src/Controller/Import/Cleanup.antt =====
-- What `cleanupExternalResources` removes.
use rhbk_operator.Prelude.{◌≡◌, refl, List, [], ◌∷◌}
use rhbk_operator.Prelude.Outcome.{Outcome, ok, err, panic}
use rhbk_operator.Kube.Objects.{Job, Secret}
use rhbk_operator.Kube.Exec.{Exec, continue, ◌>>=◌, ◌>>◌}
use rhbk_operator.Kube.Libs.{Libs}
use rhbk_operator.Kube.Client.{foreground, Client}
use rhbk_operator.Kube.Recording.{
  Event, deleted_secret, Recorded, recorded, recording, log_of, attempt-recorded,
}
use rhbk_operator.Controller.Import.Asks.{owned_jobs, owned_secrets, removed_job}
use rhbk_operator.Api.Types.{KeycloakImport}
use rhbk_operator.Api.Conditions.{ConditionLib}
use rhbk_operator.Resources.Labels.{get_owner_labels}
use rhbk_operator.Controller.Import.{
  delete_jobs, delete_secrets, get_import_jobs, get_import_secrets, cleanup_external_resources,
}

-- What comes after a step: more only if the step went well, else the end, with the answer of the step.
abbrev pub Next :
    Outcome (Unit {0}) → List Event → Type 0 → Outcome (Unit {0}) × List Event → Type 0
Next (ok _) log more end = more
Next (err e) log more (r, after) = (r ≡ err e) × (after ≡ log)
Next panic log more (r, after) = (r ≡ panic) × (after ≡ log)

-- One deletion for each object, in their order, each only after one that went well.
abbrev pub Removes :
    {A : Type 0}
    → (A → Outcome (Unit {0}) → Event)
    → List A
    → List Event
    → Outcome (Unit {0}) × List Event
    → Type 0
Removes event [] before (r, after) = (r ≡ ok tt) × (after ≡ before)
Removes event (a ∷ objects) before end =
    (r : Outcome (Unit {0})) × Next r (event a r ∷ before)
      (Removes event objects (event a r ∷ before) end) end

abbrev pub RemovesSecrets :
    KeycloakImport → Outcome (List Secret) → List Event → Outcome (Unit {0}) × List Event → Type 0
RemovesSecrets cr (ok secrets) before end =
    Removes deleted_secret secrets (owned_secrets cr (ok secrets) ∷ before) end
RemovesSecrets cr (err e) before (r, after) =
    (r ≡ err e) × (after ≡ owned_secrets cr (err e) ∷ before)
RemovesSecrets cr panic before (r, after) = (r ≡ panic) × (after ≡ owned_secrets cr panic ∷ before)

abbrev pub RemovesJobs :
    KeycloakImport → Outcome (List Job) → List Event → Outcome (Unit {0}) × List Event → Type 0
RemovesJobs cr (ok jobs) before end =
    (r : Outcome (Unit {0})) × (mid : List Event) × Removes removed_job jobs
      (owned_jobs cr (ok jobs) ∷ before) (r, mid)
    × Next r mid ((s : Outcome (List Secret)) × RemovesSecrets cr s mid end) end
RemovesJobs cr (err e) before (r, after) = (r ≡ err e) × (after ≡ owned_jobs cr (err e) ∷ before)
RemovesJobs cr panic before (r, after) = (r ≡ panic) × (after ≡ owned_jobs cr panic ∷ before)

module _ {W : Type 0} (client : Client W) (libs : Libs) (lib : ConditionLib) where
  abbrev end_of : Outcome (Unit {0}) × Recorded W → Outcome (Unit {0}) × List Event
  end_of end = (end.0, log_of end)

  -- A loop over objects, of which each round removes one.
  remove-Removes :
      {A : Type 0} (event : A → Outcome (Unit {0}) → Event) (remove : A → Exec W (Unit {0})) (a : A)
      (objects : List A) (rest : Exec (Recorded W) (Unit {0})) (w : W) (log : List Event)
      → ((w' : W) (log' : List Event) → Removes event objects log' (end_of (rest (w', log'))))
      → Removes event (a ∷ objects) log (end_of ((recorded (event a) (remove a) >> rest) (w, log)))
  remove-Removes event remove a objects rest w log later =
      attempt-recorded (λ end. Removes event (a ∷ objects) log (end_of end)) (event a)
        (λ e w'. (err e, w')) (λ _. rest) log (remove a) w
        (λ u w' _. (ok u, later w' (event a (ok u) ∷ log))) (λ e w' _. (err e, (refl, refl)))
        (λ w' _. (panic, (refl, refl)))

  delete_jobs-Removes :
      (jobs : List Job) (w : W) (log : List Event)
      → Removes removed_job jobs log
          (end_of (delete_jobs (recording client) libs lib jobs (w, log)))
  unfolding delete_jobs
  delete_jobs-Removes [] w log = (refl, refl)
  delete_jobs-Removes (job ∷ jobs) w log =
      remove-Removes removed_job (client.delete_job foreground) job jobs
        (delete_jobs (recording client) libs lib jobs) w log (delete_jobs-Removes jobs)

  delete_secrets-Removes :
      (secrets : List Secret) (w : W) (log : List Event)
      → Removes deleted_secret secrets log
          (end_of (delete_secrets (recording client) libs lib secrets (w, log)))
  unfolding delete_secrets
  delete_secrets-Removes [] w log = (refl, refl)
  delete_secrets-Removes (s ∷ secrets) w log =
      remove-Removes deleted_secret client.delete_secret s secrets
        (delete_secrets (recording client) libs lib secrets) w log (delete_secrets-Removes secrets)

  module _ (cr : KeycloakImport) where
    abbrev remove_secrets : Exec (Recorded W) (Unit {0})
    remove_secrets = get_import_secrets (recording client) libs lib cr >>= λ secrets.
        delete_secrets (recording client) libs lib secrets

    from_secrets :
        (w : W) (log : List Event)
        → (s : Outcome (List Secret)) × RemovesSecrets cr s log (end_of (remove_secrets (w, log)))
    unfolding get_import_secrets
    from_secrets w log =
        attempt-recorded (λ end. (s : Outcome (List Secret)) × RemovesSecrets cr s log (end_of end))
          (owned_secrets cr) (λ e w'. (err e, w'))
          (λ secrets. delete_secrets (recording client) libs lib secrets) log
          (client.list_secrets cr.spec.keycloak_instance.namespace
            (get_owner_labels cr.meta.name cr.meta.namespace))
          w
          (λ secrets w' _.
            (ok secrets, delete_secrets-Removes secrets w' (owned_secrets cr (ok secrets) ∷ log)))
          (λ e w' _. (err e, (refl, refl))) (λ w' _. (panic, (refl, refl)))

    after_jobs :
        (r : Outcome (Unit {0})) (w : W) (mid : List Event)
        → Next r mid
            ((s : Outcome (List Secret)) × RemovesSecrets cr s mid
                (end_of (continue r (λ e w'. (err e, w')) (λ _. remove_secrets) (w, mid))))
            (end_of (continue r (λ e w'. (err e, w')) (λ _. remove_secrets) (w, mid)))
    after_jobs (ok u) w mid = from_secrets w mid
    after_jobs (err e) w mid = (refl, refl)
    after_jobs panic w mid = (refl, refl)

    -- The clean-up lists the jobs and deletes all of them, and then lists the secrets and deletes all
    -- of them. A request that does not go well is the last one, and the answer is that of the request.
    pub cleanup_external_resources-RemovesJobs :
        (w : W) (log : List Event)
        → (r : Outcome (List Job)) × RemovesJobs cr r log
            (end_of (cleanup_external_resources (recording client) libs lib cr (w, log)))
    unfolding cleanup_external_resources get_import_jobs
    cleanup_external_resources-RemovesJobs w log =
        attempt-recorded (λ end. (r : Outcome (List Job)) × RemovesJobs cr r log (end_of end))
          (owned_jobs cr) (λ e w'. (err e, w'))
          (λ jobs. delete_jobs (recording client) libs lib jobs >> remove_secrets) log
          (client.list_jobs cr.spec.keycloak_instance.namespace
            (get_owner_labels cr.meta.name cr.meta.namespace))
          w
          (λ jobs w' _.
            let end =
              delete_jobs (recording client) libs lib jobs (w', owned_jobs cr (ok jobs) ∷ log) in
            (
              ok jobs,
              (
                end.0,
                end.1.1,
                delete_jobs-Removes jobs w' (owned_jobs cr (ok jobs) ∷ log),
                after_jobs end.0 end.1.0 end.1.1,
              ),
            ))
          (λ e w' _. (err e, (refl, refl))) (λ w' _. (panic, (refl, refl)))
