-- ===== src/Controller/Drift/Repair.antt =====
-- Each object that the two reconcilers apply is repaired.
use rhbk_operator.Prelude.{String, List, ◌≡◌, refl, sym, ◌∙◌, ap, subst, some, [], arith}
use rhbk_operator.Prelude.Maps.{Map}
use rhbk_operator.Prelude.Outcome.{Outcome, ok, err, panic, ◌>>=◌}
use rhbk_operator.Kube.Meta.{Meta}
use rhbk_operator.Kube.Objects.{Service, Route, StatefulSet, ServiceMonitor, Secret}
use rhbk_operator.Kube.Libs.{Libs, KeepsMeta, IsStable}
use rhbk_operator.Api.Types.{Keycloak, KeycloakImport}
use rhbk_operator.Resources.Labels.{decorate_default_labels}
use rhbk_operator.Rhbk
use rhbk_operator.Rhbk.StatefulSet.{pod_template, fill_in}
use rhbk_operator.Realm.InitContainer.{get_init_container}
use rhbk_operator.Kube.Pod.{Container}
use rhbk_operator.Realm
use rhbk_operator.Realm.ImportSecret.{expand_template, fill_secret}
use rhbk_operator.Controller.Drift.{
  Repairs, AgreesButLabels, ServiceAgrees, DiscoveryServiceAgrees, RouteAgrees, StatefulSetAgrees,
  ServiceMonitorAgrees, SecretAgrees,
}
use rhbk_operator.Controller.Drift.Owned.{
  made, owned_again, relabelled, redressed, Repairs-relabelled,
}

module _ (libs : Libs) (keeps : KeepsMeta libs) (stable : IsStable libs) (keycloak : Keycloak) where
  Repairs-route : Repairs (Rhbk.Route.build libs keycloak) RouteAgrees
  unfolding Rhbk.Route.build
  Repairs-route =
      Repairs-relabelled libs keeps stable keycloak.meta _ (λ (r : Route). r.meta)
        (decorate_default_labels (some [])) (λ m. refl)

  Repairs-discovery_service :
      Repairs (Rhbk.DiscoveryService.build libs keycloak) DiscoveryServiceAgrees
  unfolding Rhbk.DiscoveryService.build
  Repairs-discovery_service =
      Repairs-relabelled libs keeps stable keycloak.meta _ (λ (r : Service). r.meta)
        (decorate_default_labels (some [])) (λ m. refl)

  Repairs-service_monitor :
      Repairs (Rhbk.ServiceMonitor.mutate_fn libs keycloak) ServiceMonitorAgrees
  unfolding Rhbk.ServiceMonitor.mutate_fn
  Repairs-service_monitor =
      Repairs-relabelled libs keeps stable keycloak.meta _ (λ (r : ServiceMonitor). r.meta)
        (decorate_default_labels (some [])) (λ m. refl)

  Repairs-service : Repairs (Rhbk.Service.build libs keycloak) ServiceAgrees
  unfolding Rhbk.Service.build
  Repairs-service before built drifted e agrees =
      let (m, set, same) = made _ (libs.set_controller_reference keycloak.meta _) e in
      let meta : built.meta ≡ m = ap (λ (s : Service). s.meta) (sym same) in
      owned_again libs keeps stable keycloak.meta _ _ _ set (
        redressed libs keeps stable keycloak.meta _ _ before.meta drifted.meta set (
          subst
            (λ (x : Meta).
              drifted.meta
              ≡ record x { labels = drifted.meta.labels; annotations = drifted.meta.annotations })
            meta agrees))
      ∙ ap ok same

  module _ (host_name : String) where
    -- The object is made from what it is to agree in.
    fill_in-agrees :
        (before drifted : StatefulSet) (init_containers : List Container) (m : Meta)
        → drifted.spec.template.annotations ≡ before.spec.template.annotations
        → drifted.status ≡ before.status
        → fill_in keycloak host_name drifted init_containers m
          ≡ fill_in keycloak host_name before init_containers m
    unfolding fill_in pod_template
    fill_in-agrees before drifted init_containers m annotations status i =
        let made = fill_in keycloak host_name before init_containers m in
        record made {
          spec = record (made.spec) {
            template = record (made.spec.template) { annotations = annotations i };
          };
          status = status i;
        }

    -- The init container comes first, and does not depend on the object.
    Repairs-filled :
        (r : Outcome (List Container))
        → Repairs
            (λ (x : StatefulSet). r >>= λ init_containers.
              libs.set_controller_reference keycloak.meta
                (record x.meta { labels = decorate_default_labels (some []) })
              >>= λ m. ok (fill_in keycloak host_name x init_containers m))
            StatefulSetAgrees
    unfolding fill_in pod_template
    Repairs-filled (err x) before built drifted e agrees = absurd (ground arith)
    Repairs-filled panic before built drifted e agrees = absurd (ground arith)
    Repairs-filled (ok init_containers) before built drifted e (same_meta, annotations, status) =
        let (m, set, same) =
          made (fill_in keycloak host_name before init_containers)
            (libs.set_controller_reference keycloak.meta
              (record before.meta { labels = decorate_default_labels (some []) }))
            e in
        let meta : built.meta ≡ m = ap (λ (s : StatefulSet). s.meta) (sym same) in
        owned_again libs keeps stable keycloak.meta
          (fill_in keycloak host_name drifted init_containers) _ _ set
          (relabelled libs keeps stable keycloak.meta _ before.meta drifted.meta set
            (subst (λ (x : Meta). AgreesButLabels drifted.meta x) meta same_meta))
        ∙ ap ok (
            fill_in-agrees before drifted init_containers m
              (annotations ∙ sym (ap (λ (s : StatefulSet). s.spec.template.annotations) same))
              (status ∙ sym (ap (λ (s : StatefulSet). s.status) same))
            ∙ same)

    Repairs-stateful_set :
        Repairs (Rhbk.StatefulSet.build libs keycloak host_name) StatefulSetAgrees
    unfolding Rhbk.StatefulSet.build
    Repairs-stateful_set = Repairs-filled (get_init_container keycloak)

-- The realm comes first, and does not depend on the secret.
Repairs-filled_secret :
    (cr : KeycloakImport) (r : Outcome String)
    → Repairs
        (λ (x : Secret). elim r [
          | ok realm ↦ ok (fill_secret cr x realm)
          | err e ↦ err e
          | panic ↦ panic
        ])
        SecretAgrees
unfolding fill_secret
Repairs-filled_secret cr (err x) before built drifted e agrees = absurd (ground arith)
Repairs-filled_secret cr panic before built drifted e agrees = absurd (ground arith)
Repairs-filled_secret cr (ok realm) before built drifted e agrees =
    let same : fill_secret cr before realm ≡ built = ground arith in
    let dressed : Meta → Secret =
      λ (meta : Meta). fill_secret cr (record { meta = meta; contents = [] }) realm in
    ap ok (ap dressed agrees ∙ ap (λ (s : Secret). dressed s.meta) (sym same) ∙ same)

-- Where an owner reference changes neither the labels nor the annotations of an object, and leaves an
-- object that has it as it is: for each of the five objects of an instance and for the secret of an
-- import, if the operator's function returned an object for some object, it returns the same for every
-- object that agrees with it in what the operator does not set itself. For the stateful set these are the annotations of the pod template
-- and the status, and for all of them the metadata other than the labels (and, for the service, than
-- the annotations).
pub objects-Repairs :
    (libs : Libs) (keycloak : Keycloak) (host_name : String) (cr : KeycloakImport)
    (substitutions : Map String)
    → KeepsMeta libs
    → IsStable libs
    → Repairs (Rhbk.Service.build libs keycloak) ServiceAgrees
      × Repairs (Rhbk.Route.build libs keycloak) RouteAgrees
      × Repairs (Rhbk.StatefulSet.build libs keycloak host_name) StatefulSetAgrees
      × Repairs (Rhbk.DiscoveryService.build libs keycloak) DiscoveryServiceAgrees
      × Repairs (Rhbk.ServiceMonitor.mutate_fn libs keycloak) ServiceMonitorAgrees
      × Repairs (Realm.ImportSecret.mutate_fn libs cr substitutions) SecretAgrees
unfolding Realm.ImportSecret.mutate_fn
objects-Repairs libs keycloak host_name cr substitutions keeps stable = (
  Repairs-service libs keeps stable keycloak,
  Repairs-route libs keeps stable keycloak,
  Repairs-stateful_set libs keeps stable keycloak host_name,
  Repairs-discovery_service libs keeps stable keycloak,
  Repairs-service_monitor libs keeps stable keycloak,
  Repairs-filled_secret cr (expand_template libs cr.spec.json substitutions),
)
