-- ===== src/Tests/Jobs.antt =====
-- The job that is built for an import of the tests, and what its key is.
use rhbk_operator.Prelude.{String, ◌≡◌, ◌≢◌, refl, false, ◌==◌, arith, eq_iff}
use rhbk_operator.Prelude.Outcome.{Outcome, ok, err, panic}
use rhbk_operator.Kube.Objects.{Job}
use rhbk_operator.Realm.ImportJob.{build, import_containers}
use rhbk_operator.Controller.Watch.Owners.{HasOwnKey}
use rhbk_operator.Tests.Cluster.{import_in, stateful_set, old_job}

abbrev pub job_of : Outcome Job → Job
job_of (ok job) = job
job_of (err e) = old_job
job_of panic = old_job

unfoldable pub built : String → Job
unfolding build
built namespace = job_of (build (import_in namespace) stateful_set "7")

pub built_lem :
    (namespace : String) → build (import_in namespace) stateful_set "7" ≡ ok (built namespace)
unfolding built build import_containers
built_lem namespace = refl

pub differ : (s t : String) → (s == t) ≡ false → s ≢ t
differ s t h e = ground (arith, eq_iff s t)

pub own_key_a : HasOwnKey (import_in "team-a")
own_key_a = record {
  not_owner = differ _ _ refl;
  not_namespace = differ _ _ refl;
  not_app = differ _ _ refl;
}

pub own_key_b : HasOwnKey (import_in "team-b")
own_key_b = record {
  not_owner = differ _ _ refl;
  not_namespace = differ _ _ refl;
  not_app = differ _ _ refl;
}
