-- ===== src/Tests/WatchTests.antt =====
-- The labels of jobs and the mark on the stateful set, on the imports of the tests.
use rhbk_operator.Prelude.{ℕ, if◌then◌else◌, ◌≡◌, ◌↔◌, refl, true, false, [], ◌∷◌}
use rhbk_operator.Prelude.Maps.{lookup}
use rhbk_operator.Prelude.Outcome.{Outcome, ok, err, panic}
use rhbk_operator.Kube.Meta.{named}
use rhbk_operator.Kube.Objects.{StatefulSet, Secret}
use rhbk_operator.Kube.Recording.{recording, log_of}
use rhbk_operator.Kube.Client.{Client}
use rhbk_operator.Api.Types.{KeycloakImport}
use mathlib.Core.List.{Memᴰ}
use rhbk_operator.Realm
use rhbk_operator.Controller.Import.Asks.{removed_job}
use rhbk_operator.Controller.Watch.Foreign.{HoldsJob, import_realm-foreign}
use rhbk_operator.Controller.Import.{is_current, annotate, needs_rollout, import_realm}
use rhbk_operator.Controller.Rollout.{rollout-settles}
use rhbk_operator.Controller.Watch.{job_concerns}
use rhbk_operator.Controller.Watch.Owners.{HasOwnKey, job_concerns-build, is_current-build}
use rhbk_operator.Rhbk.StatefulSet
use rhbk_operator.Tests.World.{client_libs, conditions_lib, conditions_laws, selects_exactly}
use rhbk_operator.Tests.Cluster.{shop, keycloak, import_in, stateful_set, done_job, client, answer}
use rhbk_operator.Tests.Jobs.{built, built_lem, own_key_a, own_key_b, differ}

job_concerns-build_example :
    (job_concerns client_libs (built "team-a") (import_in "team-b") ≡ true)
    ↔ ((import_in "team-a").meta.name ≡ (import_in "team-b").meta.name)
      × ((import_in "team-a").meta.namespace ≡ (import_in "team-b").meta.namespace)
job_concerns-build_example =
    job_concerns-build client_libs (import_in "team-a") stateful_set "7" (import_in "team-b")
      selects_exactly own_key_a (built_lem "team-a")

is_current-build_example : is_current (import_in "team-a") "8" (built "team-a") ≡ false
is_current-build_example =
    is_current-build (import_in "team-a") stateful_set "7" "8" own_key_a (built_lem "team-a")

-- The namespace of the instance holds the job of the import in "team-a", and secrets get a version.
-- An import named as the one in "team-a", whose substitutions can be read.
abbrev twin : KeycloakImport
twin = record (import_in "team-b") { spec = shop.spec }

twin_key : HasOwnKey twin
twin_key = record {
  not_owner = own_key_b.not_owner;
  not_namespace = own_key_b.not_namespace;
  not_app = own_key_b.not_app;
}

abbrev versioned : Secret
versioned = record { meta = record (named "shop" "auth") { resource_version = "9" }; contents = [] }

abbrev sharing : Client ℕ
sharing = record client {
  list_jobs = λ namespace set. answer (
      ok
        (if client_libs.selects set (built "team-a").meta.labels then built "team-a" ∷ [] else []));
  get_secret = λ key. answer (ok versioned);
  apply_secret = λ meta f. answer (ok versioned);
}

sharing-HoldsJob : HoldsJob sharing client_libs "auth" (built "team-a")
sharing-HoldsJob set w e = rw e refl

applied :
    (Realm.ImportSecret.create_or_update (recording sharing) client_libs twin (0, [])).0
    ≡ ok versioned
unfolding Realm.ImportSecret.create_or_update Realm.ImportSecret.fetch_substitutions lookup
applied = refl

-- A run for the twin requests the deletion of the job of the import in "team-a".
import_realm-foreign_example :
    (r : Outcome (Unit {0})) × Memᴰ (removed_job (built "team-a") r) (
      log_of
        (import_realm (recording sharing) client_libs conditions_lib twin stateful_set (0, [])))
import_realm-foreign_example =
    import_realm-foreign sharing client_libs conditions_lib 0 [] (import_in "team-a") twin
      stateful_set stateful_set "7" versioned conditions_laws selects_exactly own_key_a twin_key
      refl (differ _ _ refl) (built_lem "team-a") sharing-HoldsJob applied (differ _ _ refl)

sts_of : Outcome StatefulSet → StatefulSet
sts_of (ok s) = s
sts_of (err e) = stateful_set
sts_of panic = stateful_set

-- The stateful set that is marked, and then built again.
marked : StatefulSet
unfolding sts_of
marked = sts_of (annotate (import_in "team-a") stateful_set "2")

rebuilt : StatefulSet
unfolding sts_of
rebuilt = sts_of (StatefulSet.build client_libs keycloak "sso.example.org" marked)

rollout-settles_example :
    needs_rollout client_libs (import_in "team-a") rebuilt "2" done_job ≡ false
unfolding rebuilt marked annotate StatefulSet.build
rollout-settles_example =
    rollout-settles client_libs keycloak "sso.example.org" (import_in "team-a") stateful_set marked
      rebuilt "2" done_job selects_exactly refl refl
