-- ===== src/Controller/Keycloak.antt =====
-- internal/controller/keycloak_controller.go: `KeycloakReconciler`.
pub mod Stages
pub mod Ends
pub mod Run
use rhbk_operator.Prelude.{String, Bool, true, false, not, ◌&&◌, Option, none, some, if◌then◌else◌}
use rhbk_operator.Prelude.Outcome.{Error}
use rhbk_operator.Kube.Meta.{Key}
use rhbk_operator.Kube.Objects.{Service, Route, StatefulSet, ServiceMonitor}
use rhbk_operator.Kube.Exec.{Exec, pure, attempt}
use rhbk_operator.Kube.Libs.{Libs}
use rhbk_operator.Kube.Client.{Client}
use rhbk_operator.Api.Types
use rhbk_operator.Api.Conditions.{ConditionLib}
use rhbk_operator.Resources.Status.{is_stateful_set_ready}
use rhbk_operator.Rhbk
use rhbk_operator.Controller.Reply.{Reply, done, failed, return_error, not_ready, ready}

module _ {W : Type 0} (client : Client W) (libs : Libs) (lib : ConditionLib) where
  unfoldable pub handle_error : Types.Keycloak → Option Error → String → Exec W Reply
  unfolding not_ready
  handle_error cr e msg w =
      return_error
        (client.update_keycloak_status
          (record cr { conditions = not_ready lib (client.now w) e msg cr.conditions }))
        w

  unfoldable pub handle_success : Types.Keycloak → Exec W Reply
  unfolding ready
  handle_success cr w =
      return_error
        (client.update_keycloak_status
          (record cr { conditions = ready lib (client.now w) cr.conditions }))
        w

  -- The `CreateOrUpdate` methods of the five resources.
  unfoldable pub create_or_update_service : Types.Keycloak → Exec W Service
  create_or_update_service cr =
      client.apply_service (Rhbk.Service.start cr) (Rhbk.Service.build libs cr)

  unfoldable pub create_or_update_route : Types.Keycloak → Exec W Route
  create_or_update_route cr = client.apply_route (Rhbk.Route.start cr) (Rhbk.Route.build libs cr)

  unfoldable pub create_or_update_stateful_set : Types.Keycloak → String → Exec W StatefulSet
  create_or_update_stateful_set cr host_name =
      client.apply_stateful_set (Rhbk.StatefulSet.start cr)
        (Rhbk.StatefulSet.build libs cr host_name)

  unfoldable pub create_or_update_discovery_service : Types.Keycloak → Exec W Service
  create_or_update_discovery_service cr =
      client.apply_service (Rhbk.DiscoveryService.start cr) (Rhbk.DiscoveryService.build libs cr)

  unfoldable pub create_or_update_service_monitor : Types.Keycloak → Exec W ServiceMonitor
  create_or_update_service_monitor cr =
      client.apply_service_monitor (Rhbk.ServiceMonitor.start cr)
        (Rhbk.ServiceMonitor.mutate_fn libs cr)

  -- The end of `Reconcile`.
  unfoldable pub report : Types.Keycloak → StatefulSet → Exec W Reply
  unfolding handle_error handle_success is_stateful_set_ready
  report cr stateful_set =
      if is_stateful_set_ready (some stateful_set)
      then handle_success cr
      else handle_error cr none "Waiting for resources to be ready"

  -- `Reconcile` from the service monitor on; below, from the discovery service on, and so on up.
  unfoldable pub from_service_monitor : Types.Keycloak → StatefulSet → Exec W Reply
  unfolding handle_error create_or_update_service_monitor report
  from_service_monitor cr stateful_set =
      attempt (create_or_update_service_monitor cr)
        (λ e. handle_error cr (some e) "Service monitor setup not ready")
        (λ _. report cr stateful_set)

  unfoldable pub from_discovery_service : Types.Keycloak → StatefulSet → Exec W Reply
  unfolding handle_error create_or_update_discovery_service from_service_monitor
  from_discovery_service cr stateful_set =
      attempt (create_or_update_discovery_service cr)
        (λ e. handle_error cr (some e) "Discovery service setup not ready")
        (λ _. from_service_monitor cr stateful_set)

  unfoldable pub from_stateful_set : Types.Keycloak → Route → Exec W Reply
  unfolding handle_error create_or_update_stateful_set from_discovery_service
  from_stateful_set cr route =
      attempt (create_or_update_stateful_set cr route.spec.host)
        (λ e. handle_error cr (some e) "Deployment setup not ready") (from_discovery_service cr)

  unfoldable pub from_route : Types.Keycloak → Exec W Reply
  unfolding handle_error create_or_update_route from_stateful_set
  from_route cr =
      attempt (create_or_update_route cr) (λ e. handle_error cr (some e) "route setup not ready")
        (from_stateful_set cr)

  -- `Reconcile`, once the custom resource is there.
  unfoldable pub reconcile_resources : Types.Keycloak → Exec W Reply
  unfolding handle_error create_or_update_service from_route
  reconcile_resources cr =
      attempt (create_or_update_service cr)
        (λ e. handle_error cr (some e) "Service setup not ready") (λ _. from_route cr)

  -- A custom resource that is gone is no error.
  unfoldable pub reconcile : Key → Exec W Reply
  unfolding reconcile_resources
  reconcile key =
      attempt (client.get_keycloak key) (λ e. if e.not_found then pure done else pure (failed e))
        reconcile_resources

-- The predicates of `SetupWithManager` on the stateful sets that the operator owns.
pub data StatefulSetEvent : Type 0 where
  created deleted : StatefulSetEvent
  updated : (old current : StatefulSet) → StatefulSetEvent

unfoldable pub wants_stateful_set_event : StatefulSetEvent → Bool
unfolding is_stateful_set_ready
wants_stateful_set_event created = false
wants_stateful_set_event deleted = true
wants_stateful_set_event (updated old current) =
    not (is_stateful_set_ready (some old)) && is_stateful_set_ready (some current)
