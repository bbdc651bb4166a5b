-- ===== src/Tests/ProgressTests.antt =====
-- A server whose world is the view itself, and an import that is new.
use rhbk_operator.Prelude.{◌≡◌, refl, some, List, [], ◌∷◌, ◌++◌, All, ◌≢◌, false, true}
use rhbk_operator.Prelude.Maps.{insert}
use rhbk_operator.Prelude.Outcome.{Outcome, ok, err, panic}
use rhbk_operator.Kube.Meta.{named, Key, key_of}
use rhbk_operator.Kube.Objects.{Secret, Job}
use rhbk_operator.Kube.Client.{Client}
use rhbk_operator.Resources.Labels.{get_owner_labels}
use rhbk_operator.Realm.ImportJob.{build, import_containers}
use rhbk_operator.Controller.Watch.Owners.{HasOwnKey}
use rhbk_operator.Controller.Progress.{View}
use rhbk_operator.Controller.Progress.Completion.{complete, complete_all}
use rhbk_operator.Controller.Watch.{created, deleted, updated, wants_job_event, handle_job_changed}
use rhbk_operator.Controller.Progress.Waking.{wants_job_event-build}
use rhbk_operator.Tests.World.{client_libs, selects_exactly}
use rhbk_operator.Tests.Cluster.{shop, keycloak, stateful_set, service, route}
use rhbk_operator.Tests.Jobs.{job_of, own_key_a}

abbrev the_view : View → View
the_view v = v

abbrev store : Outcome Secret → View → View
store (ok s) v = record v { secret = s }
store (err e) v = v
store panic v = v

abbrev server : Client View
server = record {
  now = λ v. 0;
  get_keycloak = λ key v. (ok v.keycloak, v);
  get_import = λ key v. (ok v.cr, v);
  get_stateful_set = λ key v. (ok v.stateful_set, v);
  get_secret = λ key v. (ok (v.source key.name), v);
  list_jobs = λ namespace set v. (ok v.jobs, v);
  list_secrets = λ namespace set v. (ok [], v);
  list_imports = λ v. (ok (v.cr ∷ []), v);
  create_job = λ job v. (ok tt, record v { jobs = v.jobs ++ job ∷ [] });
  delete_job = λ policy job v. (ok tt, v);
  delete_secret = λ s v. (ok tt, v);
  update_import = λ cr v. (ok cr, record v { cr = cr });
  update_stateful_set = λ s v. (ok tt, record v { stateful_set = s });
  update_keycloak_status = λ k v. (ok tt, v);
  update_import_status =
      λ cr v. (ok tt, record v { cr = record (v.cr) { conditions = cr.conditions } });
  apply_service = λ meta f v. (f (service meta), v);
  apply_route = λ meta f v. (f (route meta), v);
  apply_stateful_set = λ meta f v. (f v.stateful_set, v);
  apply_service_monitor =
      λ meta f v. (f (record { meta = meta; match_labels = []; endpoints = [] }), v);
  apply_secret = λ meta f v. (f v.secret, store (f v.secret) v);
}

abbrev run_jobs : View → View
run_jobs v = record v { jobs = complete_all v.jobs }

abbrev shop_secret : Secret
unfolding insert get_owner_labels
shop_secret = record {
  meta = record (named "shop" "auth") {
    resource_version = "7";
    labels = some (insert "sso.stakater.com/watched" "true" (get_owner_labels "shop" "team-a"));
  };
  contents = ("shop-realm.json", "{}") ∷ [];
}

abbrev before : View
before = record {
  cr = shop;
  keycloak = keycloak;
  stateful_set = stateful_set;
  secret = shop_secret;
  jobs = [];
  source = λ name. record { meta = named name "team-a"; contents = ("password", "x") ∷ [] };
}

own_key : HasOwnKey shop
own_key = record {
  not_owner = own_key_a.not_owner;
  not_namespace = own_key_a.not_namespace;
  not_app = own_key_a.not_app;
}

unfoldable new_job : Job
unfolding build
new_job = job_of (build shop stateful_set "7")

new_job_lem : build shop stateful_set "7" ≡ ok new_job
unfolding new_job build import_containers
new_job_lem = refl

wants_job_event-build_example :
    (wants_job_event created ≡ false)
    × (wants_job_event deleted ≡ false)
    × (wants_job_event (updated new_job (complete new_job)) ≡ true)
    × ((keys : List Key) × (handle_job_changed server client_libs (complete new_job) before
          ≡ (ok keys, before))
        × All (λ k. k ≡ key_of shop.meta) keys
        × (keys ≢ []))
wants_job_event-build_example =
    wants_job_event-build server client_libs before before shop [] [] stateful_set "7"
      selects_exactly own_key new_job_lem refl
