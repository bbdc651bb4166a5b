-- ===== src/Tests/EntryTests.antt =====
-- The start-up against a runtime that counts the calls and cannot set up the health check, and the
-- secret of an import.
use rhbk_operator.Prelude.{ℕ, ◌≡◌, ◌↔◌, refl, true, some, [], ◌∷◌}
use rhbk_operator.Prelude.Maps.{insert}
use rhbk_operator.Prelude.Outcome.{ok, err}
use rhbk_operator.Kube.Meta.{named}
use rhbk_operator.Kube.Objects.{Secret}
use rhbk_operator.Api.Types.{KeycloakImport}
use rhbk_operator.Resources.Labels.{get_owner_labels}
use rhbk_operator.Realm.ImportSecret.{mutate_fn}
use rhbk_operator.Controller.Watch.{secret_concerns}
use rhbk_operator.Entry.{Runtime, default_flags, manager_options, exited, cache_options, main}
use rhbk_operator.Entry.Startup.{Starts, main-Starts}
use rhbk_operator.Entry.Visibility.{mutate_fn-IsVisible}
use rhbk_operator.Tests.World.{client_libs, selects_exactly}
use rhbk_operator.Tests.Cluster.{answer, gone, import_in}

abbrev runtime : Runtime ℕ (Unit {0})
runtime = record {
  new_manager = λ options. answer (ok tt);
  set_up_keycloak = λ mgr. answer (ok tt);
  set_up_import = λ mgr. answer (ok tt);
  add_healthz_check = λ mgr name. answer (err gone);
  add_readyz_check = λ mgr name. answer (ok tt);
  start = λ mgr. answer (ok tt);
}

-- The readiness check and the start are not reached.
exits : main runtime default_flags 0 ≡ (ok (exited 1), 4)
unfolding main
exits = refl

main-Starts_example :
    Starts runtime
      (runtime.new_manager (manager_options default_flags) 0)
      (main runtime default_flags 0)
main-Starts_example = main-Starts runtime default_flags 0

abbrev empty_secret : Secret
empty_secret = record { meta = named "shop" "auth"; contents = [] }

abbrev written : Secret
unfolding insert get_owner_labels
written = record {
  meta = record (empty_secret.meta) {
    labels = some (insert "sso.stakater.com/watched" "true" (get_owner_labels "shop" "team-a"));
  };
  contents = ("shop-realm.json", "{}") ∷ [];
}

mutate_fn-IsVisible_example :
    (client_libs.selects cache_options.secret_labels written.meta.labels ≡ true)
    × ((other : KeycloakImport)
        → (client_libs.selects
              (get_owner_labels other.meta.name other.meta.namespace)
              written.meta.labels
            ≡ true)
          ↔ (other.meta.name ≡ "shop") × (other.meta.namespace ≡ "team-a"))
    × (secret_concerns client_libs written (import_in "team-a") ≡ ok true)
unfolding mutate_fn
mutate_fn-IsVisible_example =
    mutate_fn-IsVisible client_libs (import_in "team-a") [] empty_secret selects_exactly refl
