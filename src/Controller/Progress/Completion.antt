-- ===== src/Controller/Progress/Completion.antt =====
-- From an import without a job to an import that is ready, in two runs.
use rhbk_operator.Prelude.{String, ◌≡◌, List, [], ◌∷◌}
use rhbk_operator.Prelude.Outcome.{Outcome}
use rhbk_operator.Kube.Objects.{Job}
use rhbk_operator.Kube.Libs.{Libs}
use rhbk_operator.Kube.Client.{Client}
use rhbk_operator.Api.Types.{Condition}
use rhbk_operator.Api.Conditions.{ConditionLib}
use rhbk_operator.Controller.Reply.{Reply}
use rhbk_operator.Controller.Progress.{View}

-- The job controller ran the job to its end.
abbrev pub complete : Job → Job
complete job = record job { conditions = record { kind = "Complete"; status = "True" } ∷ [] }

abbrev pub complete_all : List Job → List Job
complete_all [] = []
complete_all (job ∷ jobs) = complete job ∷ complete_all jobs

abbrev pub version_of : View → String
version_of v = v.secret.meta.resource_version

-- Between two runs, the cluster completes the jobs.
abbrev pub CompletesJobs : {W : Type 0} → (W → View) → (W → W) → Type 0
CompletesJobs {W} view run_jobs =
    (w : W) → view (run_jobs w) ≡ record (view w) { jobs = complete_all (view w).jobs }

module _ (libs : Libs) (lib : ConditionLib) (v : View) (cs : List Condition) where
  abbrev updated : View
  updated = record v { cr = record (v.cr) { conditions = cs } }
