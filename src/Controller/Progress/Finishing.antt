-- ===== src/Controller/Progress/Finishing.antt =====
-- Answered runs that find a current job that is completed: the rollout, and the report.
use rhbk_operator.Prelude.{
  String, ◌≡◌, refl, sym, subst, ap, ◌∙◌, Bool-cases, inl, inr, arith, true, false, some, List, [],
  ◌∷◌,
}
use rhbk_operator.Prelude.Outcome.{ok}
use rhbk_operator.Kube.Objects.{StatefulSet, Job}
use rhbk_operator.Kube.Exec.{pure, lift}
use rhbk_operator.Kube.Libs.{Libs, SelectsExactly}
use rhbk_operator.Kube.Client.{Client}
use rhbk_operator.Api.Conditions.{ConditionLib, IsConditionLib, is_ready}
use rhbk_operator.Controller.Reply.{done, ready}
use rhbk_operator.Controller.Reply.Laws.{is_ready-ready}
use rhbk_operator.Controller.Import.{
  is_current, annotate, needs_rollout, handle_success, rollout_changes, find_job, finish_import,
  continue_with, from_jobs,
}
use rhbk_operator.Realm.Names.{get_import_job_annotation}
use rhbk_operator.Resources.Labels.{match_set}
use rhbk_operator.Resources.Status.{is_job_completed}
use rhbk_operator.Controller.Rollout.{annotation, annotation-annotate}
use rhbk_operator.Controller.Progress.{HasFinished, View, Shows, Gives, Answers}
use rhbk_operator.Controller.Progress.Requests.{gives-attempt, gives-lift, gives-else, gives-then}

module _ {W : Type 0} (view : W → View) (client : Client W) (answers : Answers view client)
    (libs : Libs) (lib : ConditionLib) (laws : IsConditionLib lib)
    (exact : SelectsExactly libs) where
  gives-handle_success :
      (v : View) (version : String) (w : W)
      → view w ≡ v
      → annotation (get_import_job_annotation v.cr) v.stateful_set ≡ some version
      → Gives view (handle_success client libs lib v.cr) w done (HasFinished lib v version)
  unfolding handle_success
  gives-handle_success v version w h marked =
      let sent = record (v.cr) { conditions = ready lib (client.now w) v.cr.conditions } in
      gives-attempt view (client.update_import_status sent) _ (λ _. pure done) w
        (record v { cr = record (v.cr) { conditions = sent.conditions } })
        (HasFinished lib v version) (answers.update_import_status v sent w h)
        (λ w' h'. (
          w',
          refl,
          (
            ap (λ (shown : View). is_ready lib shown.cr.conditions) h'
                ∙ is_ready-ready lib laws (client.now w) v.cr.conditions,
            ap (λ (shown : View). annotation (get_import_job_annotation v.cr) shown.stateful_set) h'
                ∙ marked,
            ap (λ (shown : View). shown.jobs) h',
          ),
        ))

  gives-rollout_changes :
      (v : View) (version : String) (s : StatefulSet) (w : W)
      → view w ≡ v
      → annotate v.cr v.stateful_set version ≡ ok s
      → Gives view
          (rollout_changes client libs lib v.cr v.stateful_set version)
          w
          tt
          (Shows (record v { stateful_set = s }))
  unfolding rollout_changes
  gives-rollout_changes v version s w h marks =
      gives-attempt view (lift (annotate v.cr v.stateful_set version)) _ client.update_stateful_set
        w v (Shows (record v { stateful_set = s })) (gives-lift view _ w v marks h)
        λ w' h'. answers.update_stateful_set v s w' h'

  -- Where no rollout is asked for although the job is done, the mark is there.
  marked_already :
      (v : View) (version : String) (job : Job)
      → is_job_completed job ≡ true
      → needs_rollout libs v.cr v.stateful_set version job ≡ false
      → annotation (get_import_job_annotation v.cr) v.stateful_set ≡ some version
  unfolding needs_rollout match_set
  marked_already v version job completed settled =
      let selected : libs.selects ((get_import_job_annotation v.cr, version) ∷ [])
            v.stateful_set.spec.template.annotations
          ≡ true =
        ground arith in
      ((exact ((get_import_job_annotation v.cr, version) ∷ [])
          v.stateful_set.spec.template.annotations).0
        selected).0

  gives-finish_import :
      (v : View) (version : String) (job : Job) (w : W)
      → view w ≡ v
      → is_job_completed job ≡ true
      → Gives view
          (finish_import client libs lib v.cr v.stateful_set version job)
          w
          done
          (HasFinished lib v version)
  unfolding finish_import
  gives-finish_import v version job w h completed =
      let (s, marks, marked, _) = annotation-annotate v.cr v.stateful_set version in
      elim (Bool-cases (needs_rollout libs v.cr v.stateful_set version job)) [
        | inl needed ↦
            gives-then view (needs_rollout libs v.cr v.stateful_set version job) _ _ w
              (HasFinished lib v version) needed
              (gives-attempt view (rollout_changes client libs lib v.cr v.stateful_set version) _
                (λ _. handle_success client libs lib v.cr) w (record v { stateful_set = s })
                (HasFinished lib v version) (gives-rollout_changes v version s w h marks)
                λ w' h'. gives-handle_success (record v { stateful_set = s }) version w' h' marked)
        | inr settled ↦
            gives-else view (needs_rollout libs v.cr v.stateful_set version job) _ _ w
              (HasFinished lib v version) settled
              (gives-handle_success v version w h (marked_already v version job completed settled))
      ]

  pub gives-from_current :
      (v : View) (version : String) (job : Job) (jobs : List Job) (w : W)
      → view w ≡ v
      → v.jobs ≡ job ∷ jobs
      → is_current v.cr version job ≡ true
      → is_job_completed job ≡ true
      → Gives view
          (from_jobs client libs lib v.cr v.stateful_set version v.jobs)
          w
          done
          (HasFinished lib v version)
  unfolding from_jobs continue_with find_job
  gives-from_current v version job jobs w h listed current completed =
      subst
        (λ listed.
          Gives view (from_jobs client libs lib v.cr v.stateful_set version listed) w done
            (HasFinished lib v version))
        (sym listed)
        (gives-attempt view (find_job client libs lib v.cr version (job ∷ jobs)) _
          (continue_with client libs lib v.cr v.stateful_set version) w v
          (HasFinished lib v version)
          (gives-then view (is_current v.cr version job) _ _ w (Shows v) current (w, refl, h))
          λ w' h'. gives-finish_import v version job w' h' completed)
