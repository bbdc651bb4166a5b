-- ===== src/Controller/Progress/Starting.antt =====
-- Answered runs that find no job: a new one is created.
use rhbk_operator.Prelude.{String, ◌≡◌, refl, Option, none, List, [], ◌∷◌}
use rhbk_operator.Prelude.Outcome.{Error, ok}
use rhbk_operator.Kube.Objects.{Job}
use rhbk_operator.Kube.Exec.{pure, lift}
use rhbk_operator.Kube.Libs.{Libs}
use rhbk_operator.Kube.Client.{Client}
use rhbk_operator.Api.Types.{Condition}
use rhbk_operator.Api.Conditions.{ConditionLib}
use rhbk_operator.Realm.ImportJob.{build}
use rhbk_operator.Controller.Reply.{done, not_ready}
use rhbk_operator.Controller.Import.{handle_error, find_job, start_job, continue_with, from_jobs}
use rhbk_operator.Controller.Progress.{HasStarted, View, Gives, Answers}
use rhbk_operator.Controller.Progress.Requests.{gives-attempt, gives-lift}

module _ {W : Type 0} (view : W → View) (client : Client W) (answers : Answers view client)
    (libs : Libs) (lib : ConditionLib) where
  -- The status was written, and nothing else has changed.
  abbrev pub Reported : View → View → Type 0
  Reported v shown =
      (cs : List Condition) × (shown ≡ record v { cr = record (v.cr) { conditions = cs } })

  gives-handle_error :
      (v : View) (e : Option Error) (msg : String) (w : W)
      → view w ≡ v
      → Gives view (handle_error client libs lib v.cr e msg) w done (Reported v)
  unfolding handle_error
  gives-handle_error v e msg w h =
      let sent = record (v.cr) {
        conditions = not_ready lib (client.now w) e msg v.cr.conditions;
      } in
      gives-attempt view (client.update_import_status sent) _ (λ _. pure done) w
        (record v { cr = record (v.cr) { conditions = sent.conditions } }) (Reported v)
        (answers.update_import_status v sent w h) (λ w' h'. (w', refl, (sent.conditions, h')))

  gives-start_job :
      (v : View) (version : String) (job : Job) (w : W)
      → view w ≡ record v { jobs = [] }
      → build v.cr v.stateful_set version ≡ ok job
      → Gives view (start_job client libs lib v.cr v.stateful_set version) w done (HasStarted v job)
  unfolding start_job
  gives-start_job v version job w h built =
      gives-attempt view (lift (build v.cr v.stateful_set version)) _ _ w (record v { jobs = [] })
        (HasStarted v job) (gives-lift view _ w (record v { jobs = [] }) built h)
        λ w' h'.
          gives-attempt view (client.create_job job) _ _ w' (record v { jobs = job ∷ [] })
            (HasStarted v job) (answers.create_job v job w' h')
            λ w'' h''.
              gives-handle_error (record v { jobs = job ∷ [] }) none
                "Wait for new import job to be ready" w'' h''

  pub gives-from_jobs :
      (v : View) (version : String) (job : Job) (w : W)
      → view w ≡ record v { jobs = [] }
      → build v.cr v.stateful_set version ≡ ok job
      → Gives view
          (from_jobs client libs lib v.cr v.stateful_set version [])
          w
          done
          (HasStarted v job)
  unfolding from_jobs continue_with find_job
  gives-from_jobs v version job w h built = gives-start_job v version job w h built
