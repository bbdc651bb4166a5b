-- ===== src/Controller/Protocol/Settling.antt =====
-- The jobs of an import follow the protocol.
use rhbk_operator.Prelude.{
  String, arith, ◌≢◌, ◌≡◌, refl, Bool, true, false, Option, none, some, List, [], ◌∷◌,
  if◌then◌else◌,
}
use rhbk_operator.Prelude.Outcome.{Error, Outcome, ok, err, panic}
use rhbk_operator.Kube.Objects.{StatefulSet, Job}
use rhbk_operator.Kube.Exec.{pure, lift, continue, attempt, ◌>>◌}
use rhbk_operator.Kube.Libs.{Libs}
use rhbk_operator.Kube.Client.{foreground, Client}
use rhbk_operator.Kube.Recording.{created_job, updated_stateful_set, recorded, recording}
use rhbk_operator.Controller.Import.Asks.{removed_job}
use rhbk_operator.Api.Types.{KeycloakImport}
use rhbk_operator.Api.Conditions.{ConditionLib, IsConditionLib}
use rhbk_operator.Realm.ImportJob.{build, import_containers}
use rhbk_operator.Controller.Reply.{Reply, failed_again}
use rhbk_operator.Controller.Import.{
  is_current, annotate, needs_rollout, handle_error, handle_success, rollout_changes, find_job,
  start_job, finish_import, continue_with, from_jobs,
}
use rhbk_operator.Controller.Rollout.{annotation-annotate}
use rhbk_operator.Controller.Protocol.{
  Phase, sweeping, reporting, closed, try_again, blame, unbuildable, rolled_out, sweep, create,
  roll_out,
}
use rhbk_operator.Controller.Protocol.Reporting.{follow-handle_error, follow-handle_success}
use rhbk_operator.Controller.Protocol.Rules.{
  Ends, Follows, follow-lift, follow-silent, follow-at, follow-attempt, follow-branch,
}

-- The loop over the jobs ended: before the first current job, or at the end of the list.
abbrev pub Swept : KeycloakImport → StatefulSet → String → Outcome (Option Job) → Phase → Type 0
Swept cr s version (ok none) q = q ≡ sweeping cr s version []
Swept cr s version (ok (some job)) q =
    (jobs : List Job) × (q ≡ sweeping cr s version (job ∷ jobs))
    × (is_current cr version job ≡ true)
Swept cr s version (err e) q = q ≡ blame cr e
Swept cr s version panic q = q ≡ closed panic

-- `Build` has no error to return.
build-ne-err :
    (cr : KeycloakImport) (s : StatefulSet) (version : String) (x : Error)
    → build cr s version ≢ err x
unfolding build import_containers
build-ne-err cr s version x e = ground arith

module _ {W : Type 0} (client : Client W) (libs : Libs) (lib : ConditionLib)
    (laws : IsConditionLib lib) (cr : KeycloakImport) where
  module _ (s : StatefulSet) (version : String) where
    follow-find_step :
        (job : Job) (jobs : List Job) (b : Bool)
        → is_current cr version job ≡ b
        → Follows libs lib
            (sweeping cr s version jobs)
            (find_job (recording client) libs lib cr version jobs)
            (Swept cr s version)
        → Follows libs lib
            (sweeping cr s version (job ∷ jobs))
            (if b
              then pure (some job)
              else (recorded (removed_job job) (client.delete_job foreground job)
                  >> find_job (recording client) libs lib cr version jobs))
            (Swept cr s version)
    follow-find_step job jobs true e later =
        follow-lift libs lib {A = Option Job} (sweeping cr s version (job ∷ jobs)) (ok (some job))
          (Swept cr s version) (jobs, refl, e)
    follow-find_step job jobs false e later =
        follow-branch libs lib (sweeping cr s version (job ∷ jobs)) (removed_job job)
          (client.delete_job foreground job) (λ x. lift (err x))
          (λ _. find_job (recording client) libs lib cr version jobs)
          (λ _. sweeping cr s version jobs) (blame cr) (Swept cr s version)
          (λ r. sweep cr s version job jobs r e refl) (λ _. later)
          (λ x.
            follow-lift libs lib {A = Option Job} (blame cr x) (err x) (Swept cr s version) refl)
          refl

    follow-find_job :
        (jobs : List Job)
        → Follows libs lib
            (sweeping cr s version jobs)
            (find_job (recording client) libs lib cr version jobs)
            (Swept cr s version)
    unfolding find_job
    follow-find_job [] =
        follow-lift libs lib {A = Option Job} (sweeping cr s version []) (ok none)
          (Swept cr s version) refl
    follow-find_job (job ∷ jobs) =
        follow-find_step job jobs (is_current cr version job) refl (follow-find_job jobs)

    follow-start :
        (built : Outcome Job)
        → build cr s version ≡ built
        → Follows libs lib
            (sweeping cr s version [])
            (attempt
              (lift built)
              (λ e.
                handle_error (recording client) libs lib cr (some e) "Failed to build import job")
              λ job.
                attempt
                  (recorded (created_job job) (client.create_job job))
                  (λ e. pure (failed_again e))
                  λ _.
                    handle_error
                      (recording client)
                      libs
                      lib
                      cr
                      none
                      "Wait for new import job to be ready")
            Ends
    follow-start (ok job) e =
        follow-branch libs lib (sweeping cr s version []) (created_job job) (client.create_job job)
          (λ x. pure (failed_again x))
          (λ _.
            handle_error (recording client) libs lib cr none "Wait for new import job to be ready")
          (λ _. reporting cr false) try_again Ends (λ r. create cr s version job r e refl)
          (λ _.
            follow-handle_error client libs lib laws cr none "Wait for new import job to be ready")
          (λ x. follow-lift libs lib (try_again x) (ok (failed_again x)) Ends refl) refl
    follow-start (err x) e = absurd (build-ne-err cr s version x e)
    follow-start panic e =
        follow-silent libs lib {A = Reply} (sweeping cr s version []) (closed panic) (lift panic)
          Ends (unbuildable e) (follow-lift libs lib {A = Reply} (closed panic) panic Ends refl)

    follow-finish :
        (job : Job) (jobs : List Job) (needed : Bool) (a : StatefulSet)
        → is_current cr version job ≡ true
        → needs_rollout libs cr s version job ≡ needed
        → annotate cr s version ≡ ok a
        → Follows libs lib
            (sweeping cr s version (job ∷ jobs))
            (finish_import (recording client) libs lib cr s version job)
            Ends
    unfolding finish_import rollout_changes
    follow-finish job jobs true a current n e =
        rw (n, e)
          (follow-branch libs lib (sweeping cr s version (job ∷ jobs)) (updated_stateful_set a)
            (client.update_stateful_set a) (λ x. pure (failed_again x))
            (λ _. handle_success (recording client) libs lib cr) (λ _. reporting cr true) try_again
            Ends (λ r. roll_out cr s a version job jobs r current n e refl)
            (λ _. follow-handle_success client libs lib laws cr)
            (λ x. follow-lift libs lib (try_again x) (ok (failed_again x)) Ends refl) refl)
    follow-finish job jobs false a current n e = rw n (
        follow-silent libs lib (sweeping cr s version (job ∷ jobs)) (reporting cr true)
          (handle_success (recording client) libs lib cr) Ends (rolled_out current n)
          (follow-handle_success client libs lib laws cr))

    follow-continue :
        (found : Outcome (Option Job)) (q : Phase)
        → Swept cr s version found q
        → Follows libs lib q
            (continue found
              (λ e. handle_error (recording client) libs lib cr (some e) "Failed to delete old job")
              (continue_with (recording client) libs lib cr s version))
            Ends
    unfolding continue_with start_job
    follow-continue (ok none) q e =
        follow-at libs lib (sweeping cr s version []) q
          (start_job (recording client) libs lib cr s version) Ends e
          (follow-start (build cr s version) refl)
    follow-continue (ok (some job)) q (jobs, e, current) =
        let (a, annotates, _, _) = annotation-annotate cr s version in
        follow-at libs lib (sweeping cr s version (job ∷ jobs)) q
          (finish_import (recording client) libs lib cr s version job) Ends e
          (follow-finish job jobs (needs_rollout libs cr s version job) a current refl annotates)
    follow-continue (err x) q e =
        follow-at libs lib (blame cr x) q
          (handle_error (recording client) libs lib cr (some x) "Failed to delete old job") Ends e
          (follow-handle_error client libs lib laws cr (some x) "Failed to delete old job")
    follow-continue panic q e = follow-lift libs lib {A = Reply} q panic Ends e

    -- From the listed jobs on, until the end of the run.
    pub follow-from_jobs :
        (jobs : List Job)
        → Follows libs lib
            (sweeping cr s version jobs)
            (from_jobs (recording client) libs lib cr s version jobs)
            Ends
    unfolding from_jobs
    follow-from_jobs jobs =
        follow-attempt libs lib (sweeping cr s version jobs)
          (find_job (recording client) libs lib cr version jobs)
          (λ e. handle_error (recording client) libs lib cr (some e) "Failed to delete old job")
          (continue_with (recording client) libs lib cr s version) (Swept cr s version) Ends
          (follow-find_job jobs) follow-continue
