-- ===== src/Tests/ControllerTests.antt =====
-- The reconcilers, run on the cluster of the tests, and their theorems applied to these runs.
use rhbk_operator.Prelude.{String, ◌≡◌, ◌≢◌, refl, Option, some, List, [], ◌∷◌}
use rhbk_operator.Prelude.Outcome.{Outcome, ok, err}
use rhbk_operator.Kube.Objects.{StatefulSet, Job}
use rhbk_operator.Kube.Recording.{Event, recording, log_of, updated_import}
use rhbk_operator.Controller.Import.Asks.{owned_jobs, owned_secrets}
use rhbk_operator.Api.Types.{Keycloak}
use rhbk_operator.Realm.Names.{get_import_job_annotation}
use rhbk_operator.Controller.Reply.{failed}
use rhbk_operator.Controller.Keycloak.{reconcile_resources}
use rhbk_operator.Controller.Keycloak.Stages.{Stages}
use rhbk_operator.Controller.Keycloak.Run.{reconcile_resources-Stages}
use rhbk_operator.Controller.Import.{
  annotate, find_job, from_jobs, reconcile_import, handle_deletion, cleanup_external_resources,
}
use rhbk_operator.Controller.Import.Jobs.{Sweeps, find_job-Sweeps}
use rhbk_operator.Controller.Import.Settling.{Settles, from_jobs-Settles}
use rhbk_operator.Realm
use rhbk_operator.Controller.Import.Cleanup.{RemovesJobs, cleanup_external_resources-RemovesJobs}
use rhbk_operator.Controller.Import.Gates.{HasKeycloak, reconcile_import-Gated}
use rhbk_operator.Controller.Import.Deletion.{released, held, handle_deletion-held}
use rhbk_operator.Controller.Rollout.{annotation, annotation-annotate}
use rhbk_operator.Tests.World.{
  conditions_lib, conditions_laws, client_libs, tracks_finalizers, holds, without,
}
use rhbk_operator.Tests.Cluster.{keycloak, import_in, stateful_set, old_job, done_job, client, gone}

reconcile_resources-Stages_example :
    Stages conditions_lib keycloak
      (log_of (reconcile_resources (recording client) client_libs conditions_lib keycloak (0, [])))
reconcile_resources-Stages_example =
    reconcile_resources-Stages client client_libs conditions_lib conditions_laws keycloak 0

find_job-Sweeps_example :
    let end =
      find_job
        (recording client)
        client_libs
        conditions_lib
        (import_in "team-a")
        "2"
        (old_job ∷ done_job ∷ [])
        (0, []) in
    Sweeps (import_in "team-a") "2" (old_job ∷ done_job ∷ []) [] (end.0, log_of end)
find_job-Sweeps_example =
    find_job-Sweeps client client_libs conditions_lib (import_in "team-a") "2"
      (old_job ∷ done_job ∷ []) 0 []

from_jobs-Settles_example :
    (found : Outcome (Option Job)) × (swept : List Event) × Sweeps
      (import_in "team-a")
      "2"
      (old_job ∷ done_job ∷ [])
      []
      (found, swept)
    × Settles client_libs conditions_lib (import_in "team-a") stateful_set "2" found swept (
        log_of (
          from_jobs
            (recording client)
            client_libs
            conditions_lib
            (import_in "team-a")
            stateful_set
            "2"
            (old_job ∷ done_job ∷ [])
            (0, [])))
from_jobs-Settles_example =
    from_jobs-Settles client client_libs conditions_lib conditions_laws (import_in "team-a")
      stateful_set "2" (old_job ∷ done_job ∷ []) 0 []

reconcile_import-Gated_example :
    (r : Outcome Keycloak) × HasKeycloak client client_libs conditions_lib
      (import_in "team-a")
      r
      []
      (log_of (
        reconcile_import
          (recording client)
          client_libs
          conditions_lib
          (import_in "team-a")
          (0, [])))
reconcile_import-Gated_example =
    reconcile_import-Gated client client_libs conditions_lib (import_in "team-a") conditions_laws 0
      []

-- The client refuses the finalizer of an import that was released.
handle_deletion-held_example :
    let cr = import_in "team-a" in
    handle_deletion (recording client) client_libs conditions_lib cr (0, []) ≡ (
      ok (failed gone),
      (
        4,
        updated_import (held client_libs (released client_libs cr)) (err gone)
            ∷ updated_import (released client_libs cr) (ok (released client_libs cr))
            ∷ owned_secrets (import_in "team-a") (ok [])
            ∷ owned_jobs (import_in "team-a") (ok [])
            ∷ [],
      ),
    )
unfolding cleanup_external_resources holds without
handle_deletion-held_example =
    handle_deletion-held client client_libs conditions_lib (import_in "team-a") 0 2 3 4 []
      (owned_secrets (import_in "team-a") (ok []) ∷ owned_jobs (import_in "team-a") (ok []) ∷ [])
      gone tracks_finalizers refl refl refl refl

annotation-annotate_example :
    let cr = import_in "team-a" in
    (a : StatefulSet) × (annotate cr stateful_set "2" ≡ ok a)
    × (annotation (get_import_job_annotation cr) a ≡ some "2")
    × ((key : String)
        → get_import_job_annotation cr ≢ key
        → annotation key a ≡ annotation key stateful_set)
annotation-annotate_example = annotation-annotate (import_in "team-a") stateful_set "2"

cleanup_external_resources-RemovesJobs_example :
    let end =
      cleanup_external_resources
        (recording client)
        client_libs
        conditions_lib
        (import_in "team-a")
        (0, []) in
    (r : Outcome (List Job)) × RemovesJobs (import_in "team-a") r [] (end.0, log_of end)
cleanup_external_resources-RemovesJobs_example =
    cleanup_external_resources-RemovesJobs client client_libs conditions_lib (import_in "team-a") 0
      []
