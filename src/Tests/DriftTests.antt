-- ===== src/Tests/DriftTests.antt =====
-- The objects of the tests, with libraries that write one owner reference.
use rhbk_operator.Prelude.{◌≡◌, sym, ap, ◌∙◌, true, [], ◌∷◌, arith}
use rhbk_operator.Prelude.Outcome.{ok}
use rhbk_operator.Kube.Meta.{Meta}
use rhbk_operator.Kube.Libs.{Libs, KeepsMeta, IsStable}
use rhbk_operator.Rhbk
use rhbk_operator.Realm
use rhbk_operator.Controller.Drift.{
  Repairs, ServiceAgrees, DiscoveryServiceAgrees, RouteAgrees, StatefulSetAgrees,
  ServiceMonitorAgrees, SecretAgrees,
}
use rhbk_operator.Controller.Drift.Repair.{objects-Repairs}
use rhbk_operator.Tests.World.{client_libs}
use rhbk_operator.Tests.Cluster.{keycloak, import_in}

abbrev owned_by : Meta → Meta → Meta
owned_by owner controlled = record controlled {
  owner_references =
      record { kind = "Keycloak"; name = owner.name; uid = owner.uid; controller = true } ∷ [];
}

abbrev owning_libs : Libs
owning_libs = record client_libs {
  set_controller_reference = λ owner controlled. ok (owned_by owner controlled);
}

keeps_meta : KeepsMeta owning_libs
keeps_meta = record { keeps = λ owner controlled e. ground arith }

owned_again :
    (owner controlled : Meta) {m : Meta}
    → owning_libs.set_controller_reference owner controlled ≡ ok m
    → owning_libs.set_controller_reference owner m ≡ ok m
owned_again owner controlled {m} e =
    let same : owned_by owner controlled ≡ m = ground arith in
    ap (λ m. ok (owned_by owner m)) (sym same) ∙ ap ok same

is_stable : IsStable owning_libs
is_stable = record { again = owned_again }

objects-Repairs_example :
    Repairs (Rhbk.Service.build owning_libs keycloak) ServiceAgrees
    × Repairs (Rhbk.Route.build owning_libs keycloak) RouteAgrees
    × Repairs (Rhbk.StatefulSet.build owning_libs keycloak "sso.example.org") StatefulSetAgrees
    × Repairs (Rhbk.DiscoveryService.build owning_libs keycloak) DiscoveryServiceAgrees
    × Repairs (Rhbk.ServiceMonitor.mutate_fn owning_libs keycloak) ServiceMonitorAgrees
    × Repairs (Realm.ImportSecret.mutate_fn owning_libs (import_in "team-a") []) SecretAgrees
objects-Repairs_example =
    objects-Repairs owning_libs keycloak "sso.example.org" (import_in "team-a") [] keeps_meta
      is_stable
