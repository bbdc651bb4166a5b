-- ===== src/Controller/Keycloak/Run.antt =====
-- Every run of the Keycloak reconciler goes through its stages.
use rhbk_operator.Prelude.{String, refl, some, List, [], ◌∷◌}
use rhbk_operator.Prelude.Outcome.{Error, Outcome, ok, err, panic}
use rhbk_operator.Kube.Objects.{Service, Route, StatefulSet}
use rhbk_operator.Kube.Exec.{Exec}
use rhbk_operator.Kube.Libs.{Libs}
use rhbk_operator.Kube.Client.{Client}
use rhbk_operator.Kube.Recording.{
  Event, applied_service, applied_route, applied_stateful_set, applied_service_monitor, Recorded,
  recording, log_of, attempt-recorded,
}
use rhbk_operator.Api.Types
use rhbk_operator.Api.Conditions.{ConditionLib, IsConditionLib}
use rhbk_operator.Controller.Reply.{Reply}
use rhbk_operator.Rhbk
use rhbk_operator.Controller.Keycloak.{
  from_service_monitor, from_discovery_service, from_stateful_set, from_route, handle_error, report,
  reconcile_resources,
}
use rhbk_operator.Controller.Keycloak.Ends.{stopped, crash, finished}
use rhbk_operator.Controller.Keycloak.Stages.{
  at_service, at_route, at_stateful_set, at_discovery, at_monitor, Stages,
}

module _ {W : Type 0} (client : Client W) (libs : Libs) (lib : ConditionLib)
    (laws : IsConditionLib lib) (cr : Types.Keycloak) where
  -- The record after each stage that went well.
  abbrev after_service : Service → List Event
  after_service v = applied_service (at_service cr) (ok v) ∷ []

  abbrev after_route : Service → Route → List Event
  after_route v r = applied_route (at_route cr) (ok r) ∷ after_service v

  abbrev after_stateful_set : Service → Route → StatefulSet → List Event
  after_stateful_set v r s = applied_stateful_set (at_stateful_set cr) (ok s) ∷ after_route v r

  abbrev after_discovery : Service → Route → StatefulSet → Service → List Event
  after_discovery v r s d = applied_service (at_discovery cr) (ok d) ∷ after_stateful_set v r s

  abbrev GoesThrough : Outcome Reply × Recorded W → Type 0
  GoesThrough end = Stages lib cr (log_of end)

  abbrev failing : String → Error → Exec (Recorded W) Reply
  failing msg e = handle_error (recording client) libs lib cr (some e) msg

  from_service_monitor-Stages :
      (v : Service) (r : Route) (s : StatefulSet) (d : Service) (w : W)
      → Stages lib cr (
          log_of
            (from_service_monitor (recording client) libs lib cr s (w, after_discovery v r s d)))
  unfolding from_service_monitor
  from_service_monitor-Stages v r s d w =
      attempt-recorded GoesThrough (applied_service_monitor (at_monitor cr))
        (failing "Service monitor setup not ready") (λ _. report (recording client) libs lib cr s)
        (after_discovery v r s d)
        (client.apply_service_monitor (Rhbk.ServiceMonitor.start cr)
          (Rhbk.ServiceMonitor.mutate_fn libs cr))
        w (λ m w' _. finished client libs lib laws cr v r s d m w')
        (λ e w' _.
          stopped client libs lib laws cr (applied_service_monitor (at_monitor cr) (err e)) e
            (after_discovery v r s d) w' refl refl (refl, (refl, (refl, (refl, tt)))))
        (λ w' _.
          crash client libs lib laws cr (applied_service_monitor (at_monitor cr) panic)
            (after_discovery v r s d) refl refl (refl, (refl, (refl, (refl, tt)))))

  from_discovery_service-Stages :
      (v : Service) (r : Route) (s : StatefulSet) (w : W)
      → Stages lib cr (
          log_of
            (from_discovery_service (recording client) libs lib cr s (w, after_stateful_set v r s)))
  unfolding from_discovery_service
  from_discovery_service-Stages v r s w =
      attempt-recorded GoesThrough (applied_service (at_discovery cr))
        (failing "Discovery service setup not ready")
        (λ _. from_service_monitor (recording client) libs lib cr s) (after_stateful_set v r s)
        (client.apply_service (Rhbk.DiscoveryService.start cr)
          (Rhbk.DiscoveryService.build libs cr))
        w (λ d w' _. from_service_monitor-Stages v r s d w')
        (λ e w' _.
          stopped client libs lib laws cr (applied_service (at_discovery cr) (err e)) e
            (after_stateful_set v r s) w' refl refl (refl, (refl, (refl, tt))))
        (λ w' _.
          crash client libs lib laws cr (applied_service (at_discovery cr) panic)
            (after_stateful_set v r s) refl refl (refl, (refl, (refl, tt))))

  from_stateful_set-Stages :
      (v : Service) (r : Route) (w : W)
      → Stages lib cr
          (log_of (from_stateful_set (recording client) libs lib cr r (w, after_route v r)))
  unfolding from_stateful_set
  from_stateful_set-Stages v r w =
      attempt-recorded GoesThrough (applied_stateful_set (at_stateful_set cr))
        (failing "Deployment setup not ready")
        (from_discovery_service (recording client) libs lib cr) (after_route v r)
        (client.apply_stateful_set (Rhbk.StatefulSet.start cr)
          (Rhbk.StatefulSet.build libs cr r.spec.host))
        w (λ s w' _. from_discovery_service-Stages v r s w')
        (λ e w' _.
          stopped client libs lib laws cr (applied_stateful_set (at_stateful_set cr) (err e)) e
            (after_route v r) w' refl refl (refl, (refl, tt)))
        (λ w' _.
          crash client libs lib laws cr (applied_stateful_set (at_stateful_set cr) panic)
            (after_route v r) refl refl (refl, (refl, tt)))

  from_route-Stages :
      (v : Service) (w : W)
      → Stages lib cr (log_of (from_route (recording client) libs lib cr (w, after_service v)))
  unfolding from_route
  from_route-Stages v w =
      attempt-recorded GoesThrough (applied_route (at_route cr)) (failing "route setup not ready")
        (from_stateful_set (recording client) libs lib cr) (after_service v)
        (client.apply_route (Rhbk.Route.start cr) (Rhbk.Route.build libs cr)) w
        (λ r w' _. from_stateful_set-Stages v r w')
        (λ e w' _.
          stopped client libs lib laws cr (applied_route (at_route cr) (err e)) e (after_service v)
            w' refl refl (refl, tt))
        (λ w' _.
          crash client libs lib laws cr (applied_route (at_route cr) panic) (after_service v) refl
            refl (refl, tt))

  -- A run on a custom resource that was read, where the condition library keeps its laws, ends in one
  -- of three ways. All five resources were applied, in the order service, route, stateful set,
  -- discovery service, monitor, and then the status was sent, which says ready just if the applied
  -- stateful set is. Or one of them failed with an error behind earlier ones that went well, nothing
  -- more was applied, and the status was sent, which says not ready, with the message of that stage
  -- and the error. Or one of them panicked behind earlier ones that went well, and nothing was sent.
  -- The status sent differs from the custom resource in its conditions alone.
  pub reconcile_resources-Stages :
      (w : W) → Stages lib cr (log_of (reconcile_resources (recording client) libs lib cr (w, [])))
  unfolding reconcile_resources
  reconcile_resources-Stages w =
      attempt-recorded GoesThrough (applied_service (at_service cr))
        (failing "Service setup not ready") (λ _. from_route (recording client) libs lib cr) []
        (client.apply_service (Rhbk.Service.start cr) (Rhbk.Service.build libs cr)) w
        (λ v w' _. from_route-Stages v w')
        (λ e w' _.
          stopped client libs lib laws cr (applied_service (at_service cr) (err e)) e [] w' refl
            refl tt)
        (λ w' _.
          crash client libs lib laws cr (applied_service (at_service cr) panic) [] refl refl tt)
