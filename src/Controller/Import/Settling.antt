-- ===== src/Controller/Import/Settling.antt =====
-- What the import reconciler does once it has listed the jobs, seen in the record of its requests.
use rhbk_operator.Prelude.{String, ◌≡◌, refl, Bool, true, false, Option, none, some, List, ◌∷◌}
use rhbk_operator.Prelude.Outcome.{Error, Outcome, ok, err, panic}
use rhbk_operator.Kube.Objects.{StatefulSet, Job}
use rhbk_operator.Kube.Exec.{pure, continue}
use rhbk_operator.Kube.Libs.{Libs}
use rhbk_operator.Kube.Client.{Client}
use rhbk_operator.Kube.Recording.{
  Event, created_job, updated_stateful_set, set_import_status, recording, log_of, attempt-recorded,
}
use rhbk_operator.Api.Types.{KeycloakImport}
use rhbk_operator.Api.Conditions.{ConditionLib, IsConditionLib, is_ready}
use rhbk_operator.Realm.ImportJob.{build}
use rhbk_operator.Controller.Reply.{failed_again, not_ready, ready}
use rhbk_operator.Controller.Reply.Laws.{log-return_error, is_ready-not_ready, is_ready-ready}
use rhbk_operator.Controller.Import.{
  annotate, needs_rollout, handle_error, handle_success, find_job, rollout_changes, start_job,
  finish_import, continue_with, from_jobs,
}
use rhbk_operator.Controller.Import.Jobs.{Sweeps, find_job-Sweeps}

module _ (lib : ConditionLib) (cr : KeycloakImport) where
  -- The last request writes the status: only the conditions change, and they say this verdict.
  abbrev pub Reports : Bool → List Event → List Event → Type 0
  Reports verdict before after =
      (sent : KeycloakImport) × (r : Outcome (Unit {0})) × (after
        ≡ set_import_status sent r ∷ before)
      × (sent ≡ record cr { conditions = sent.conditions })
      × (is_ready lib sent.conditions ≡ verdict)

module _ (libs : Libs) (lib : ConditionLib) (cr : KeycloakImport) (sts : StatefulSet)
    (version : String) where
  -- The job was sent; the status follows only if the server took it.
  abbrev pub Created : Job → Outcome (Unit {0}) → List Event → List Event → Type 0
  Created job (ok _) before after = Reports lib cr false (created_job job (ok tt) ∷ before) after
  Created job r before after = after ≡ created_job job r ∷ before

  -- What follows from the job that was built.
  abbrev pub Started : Outcome Job → List Event → List Event → Type 0
  Started (ok job) before after = (r : Outcome (Unit {0})) × Created job r before after
  Started (err e) before after = Reports lib cr false before after
  Started panic before after = after ≡ before

  abbrev pub Updated : StatefulSet → Outcome (Unit {0}) → List Event → List Event → Type 0
  Updated a (ok _) before after =
      Reports lib cr true (updated_stateful_set a (ok tt) ∷ before) after
  Updated a r before after = after ≡ updated_stateful_set a r ∷ before

  -- Whether the stateful set is to be marked.
  abbrev pub Finished : Outcome StatefulSet → Bool → List Event → List Event → Type 0
  Finished (ok a) true before after = (r : Outcome (Unit {0})) × Updated a r before after
  Finished (err e) true before after = after ≡ before
  Finished panic true before after = after ≡ before
  Finished _ false before after = Reports lib cr true before after

  -- What follows from the answer of the loop over the jobs.
  abbrev pub Settles : Outcome (Option Job) → List Event → List Event → Type 0
  Settles (ok none) before after = Started (build cr sts version) before after
  Settles (ok (some job)) before after =
      Finished (annotate cr sts version) (needs_rollout libs cr sts version job) before after
  Settles (err e) before after = Reports lib cr false before after
  Settles panic before after = after ≡ before

module _ {W : Type 0} (client : Client W) (libs : Libs) (lib : ConditionLib)
    (laws : IsConditionLib lib) (cr : KeycloakImport) where
  pub handle_error-Reports :
      (e : Option Error) (msg : String) (w : W) (log : List Event)
      → Reports lib cr false log
          (log_of (handle_error (recording client) libs lib cr e msg (w, log)))
  unfolding handle_error
  handle_error-Reports e msg w log = (
    sent,
    (client.update_import_status sent w).0,
    log-return_error (set_import_status sent) (client.update_import_status sent) w log,
    refl,
    is_ready-not_ready lib laws (client.now w) e msg cr.conditions,
  )
    where
      sent : KeycloakImport
      sent = record cr { conditions = not_ready lib (client.now w) e msg cr.conditions }

  pub handle_success-Reports :
      (w : W) (log : List Event)
      → Reports lib cr true log (log_of (handle_success (recording client) libs lib cr (w, log)))
  unfolding handle_success
  handle_success-Reports w log = (
    sent,
    (client.update_import_status sent w).0,
    log-return_error (set_import_status sent) (client.update_import_status sent) w log,
    refl,
    is_ready-ready lib laws (client.now w) cr.conditions,
  )
    where
      sent : KeycloakImport
      sent = record cr { conditions = ready lib (client.now w) cr.conditions }

module _ {W : Type 0} (client : Client W) (libs : Libs) (lib : ConditionLib)
    (laws : IsConditionLib lib) (cr : KeycloakImport) (sts : StatefulSet) (version : String) where
  -- The reconciler builds the job, sends it, and reports that the realm is not imported yet.
  start_job-Started :
      (built : Outcome Job) (w : W) (log : List Event)
      → build cr sts version ≡ built
      → Started libs lib cr sts version built log
          (log_of (start_job (recording client) libs lib cr sts version (w, log)))
  unfolding start_job
  start_job-Started (ok job) w log e = rw e (
      attempt-recorded
        (λ end. (r : Outcome (Unit {0})) × Created libs lib cr sts version job r log (log_of end))
        (created_job job) (λ x. pure (failed_again x))
        (λ _.
          handle_error (recording client) libs lib cr none "Wait for new import job to be ready")
        log (client.create_job job) w
        (λ a w' _. (
          ok a,
          handle_error-Reports client libs lib laws cr none "Wait for new import job to be ready" w'
              (created_job job (ok a) ∷ log),
        ))
        (λ x w' _. (err x, refl)) (λ w' _. (panic, refl)))
  start_job-Started (err x) w log e =
      rw e
        (handle_error-Reports client libs lib laws cr (some x) "Failed to build import job" w log)
  start_job-Started panic w log e = rw e refl

  -- The reconciler marks the stateful set if it has to, and then reports success.
  finish_import-Finished :
      (job : Job) (a : Outcome StatefulSet) (needed : Bool) (w : W) (log : List Event)
      → annotate cr sts version ≡ a
      → needs_rollout libs cr sts version job ≡ needed
      → Finished libs lib cr sts version a needed log
          (log_of (finish_import (recording client) libs lib cr sts version job (w, log)))
  unfolding finish_import rollout_changes
  finish_import-Finished job (ok a) true w log e n =
      rw (n, e)
        (attempt-recorded
          (λ end. (r : Outcome (Unit {0})) × Updated libs lib cr sts version a r log (log_of end))
          (updated_stateful_set a) (λ x. pure (failed_again x))
          (λ _. handle_success (recording client) libs lib cr) log (client.update_stateful_set a) w
          (λ u w' _. (
            ok u,
            handle_success-Reports client libs lib laws cr w' (updated_stateful_set a (ok u) ∷ log),
          ))
          (λ x w' _. (err x, refl)) (λ w' _. (panic, refl)))
  finish_import-Finished job (err x) true w log e n = rw (n, e) refl
  finish_import-Finished job panic true w log e n = rw (n, e) refl
  finish_import-Finished job (ok a) false w log e n =
      rw n (handle_success-Reports client libs lib laws cr w log)
  finish_import-Finished job (err x) false w log e n =
      rw n (handle_success-Reports client libs lib laws cr w log)
  finish_import-Finished job panic false w log e n =
      rw n (handle_success-Reports client libs lib laws cr w log)

  pub settle :
      (found : Outcome (Option Job)) (w : W) (log : List Event)
      → Settles libs lib cr sts version found log (
          log_of (
            continue found
              (λ e. handle_error (recording client) libs lib cr (some e) "Failed to delete old job")
              (continue_with (recording client) libs lib cr sts version)
              (w, log)))
  unfolding continue_with
  settle (ok none) w log = start_job-Started (build cr sts version) w log refl
  settle (ok (some job)) w log =
      finish_import-Finished job (annotate cr sts version) (needs_rollout libs cr sts version job) w
        log refl refl
  settle (err e) w log =
      handle_error-Reports client libs lib laws cr (some e) "Failed to delete old job" w log
  settle panic w log = refl

  -- Where the condition library keeps its laws: once the jobs are listed, the reconciler deletes the
  -- stale ones in front of the first current one. If no job is current it creates the job that it builds, and reports that the realm is not
  -- imported. If one is, it marks the stateful set first where a rollout is needed, and reports
  -- success. A deletion that fails is the last one: it is reported, and nothing is created; after a creation or an update
  -- of the stateful set that fails, and after a panic, there is no request.
  pub from_jobs-Settles :
      (jobs : List Job) (w : W) (log : List Event)
      → (found : Outcome (Option Job)) × (swept : List Event) × Sweeps cr version jobs log
          (found, swept)
        × Settles libs lib cr sts version found swept
            (log_of (from_jobs (recording client) libs lib cr sts version jobs (w, log)))
  unfolding from_jobs
  from_jobs-Settles jobs w log =
      let end = find_job (recording client) libs lib cr version jobs (w, log) in
      (
        end.0,
        end.1.1,
        find_job-Sweeps client libs lib cr version jobs w log,
        settle end.0 end.1.0 end.1.1,
      )
