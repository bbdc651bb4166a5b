-- ===== src/Controller/Import/Phases.antt =====
-- The import of a realm into an instance that is up: the secret, the list of jobs, the jobs.
use rhbk_operator.Prelude.{String, ◌≡◌, false, Option, List, ◌∷◌}
use rhbk_operator.Prelude.Outcome.{Outcome, ok, err, panic}
use rhbk_operator.Kube.Objects.{StatefulSet, Secret, Job}
use rhbk_operator.Kube.Libs.{Libs}
use rhbk_operator.Kube.Client.{Client}
use rhbk_operator.Kube.Recording.{Event}
use rhbk_operator.Controller.Import.Asks.{asked_jobs}
use rhbk_operator.Api.Types.{KeycloakImport}
use rhbk_operator.Api.Conditions.{ConditionLib}
use rhbk_operator.Realm
use rhbk_operator.Controller.Import.Jobs.{Sweeps}
use rhbk_operator.Controller.Import.Settling.{Reports, Settles}

module _ (libs : Libs) (lib : ConditionLib) (cr : KeycloakImport) (sts : StatefulSet) where
  -- What follows from the list of jobs, for a version of the secret.
  abbrev pub Listed : String → Outcome (List Job) → List Event → List Event → Type 0
  Listed version (ok jobs) before after =
      (found : Outcome (Option Job)) × (swept : List Event) × Sweeps cr version jobs
        (asked_jobs cr (ok jobs) ∷ before) (found, swept)
      × Settles libs lib cr sts version found swept after
  Listed version (err e) before after = Reports lib cr false (asked_jobs cr (err e) ∷ before) after
  Listed version panic before after = after ≡ asked_jobs cr panic ∷ before

  -- What follows from the secret that was applied: its version is the one of the jobs.
  abbrev pub Applied : Outcome Secret → List Event → List Event → Type 0
  Applied (ok s) before after =
      (r : Outcome (List Job)) × Listed s.meta.resource_version r before after
  Applied (err e) before after = Reports lib cr false before after
  Applied panic before after = after ≡ before
