-- ===== src/Controller/Keycloak/Stages.antt =====
-- What one run of the Keycloak reconciler does, seen in the record of its requests.
use rhbk_operator.Prelude.{
  ℕ, zero, suc, String, ◌≡◌, ◌⊎◌, Bool, true, false, some, List, [], ◌∷◌, All, length, concat,
}
use rhbk_operator.Prelude.Outcome.{Error, Outcome, ok}
use rhbk_operator.Kube.Meta.{Meta}
use rhbk_operator.Kube.Objects.{Service, Route, StatefulSet, ServiceMonitor}
use rhbk_operator.Kube.Recording.{
  Event, set_keycloak_status, applied_service, applied_route, applied_stateful_set,
  applied_service_monitor, crashed, badly, ending, EndedWell,
}
use rhbk_operator.Api.Types
use rhbk_operator.Api.Conditions.{ConditionLib, is_ready, condition_msg}
use rhbk_operator.Resources.Status.{is_stateful_set_ready}
use rhbk_operator.Rhbk

-- The names under which the five resources are applied.
abbrev pub at_service : Types.Keycloak → Meta
at_service = Rhbk.Service.start

abbrev pub at_route : Types.Keycloak → Meta
at_route = Rhbk.Route.start

abbrev pub at_stateful_set : Types.Keycloak → Meta
at_stateful_set = Rhbk.StatefulSet.start

abbrev pub at_discovery : Types.Keycloak → Meta
at_discovery = Rhbk.DiscoveryService.start

abbrev pub at_monitor : Types.Keycloak → Meta
at_monitor = Rhbk.ServiceMonitor.start

-- The requests stand in the order service, route, stateful set, discovery service, monitor, and
-- there is at least one.
abbrev pub in_order : List Event → Bool
in_order (applied_service _ _ ∷ []) = true
in_order (applied_route _ _ ∷ applied_service _ _ ∷ []) = true
in_order (applied_stateful_set _ _ ∷ applied_route _ _ ∷ applied_service _ _ ∷ []) = true
in_order
      (applied_service _ _
        ∷ applied_stateful_set _ _
        ∷ applied_route _ _
        ∷ applied_service _ _
        ∷ []) =
    true
in_order
      (applied_service_monitor _ _
        ∷ applied_service _ _
        ∷ applied_stateful_set _ _
        ∷ applied_route _ _
        ∷ applied_service _ _
        ∷ []) =
    true
in_order _ = false

-- What the status says of a failure after so many requests.
abbrev pub stage_message : ℕ → String
stage_message zero = "Service setup not ready"
stage_message (suc zero) = "route setup not ready"
stage_message (suc (suc zero)) = "Deployment setup not ready"
stage_message (suc (suc (suc zero))) = "Discovery service setup not ready"
stage_message _ = "Service monitor setup not ready"

module _ (lib : ConditionLib) (cr : Types.Keycloak) where
  -- Only the conditions of the custom resource are changed.
  abbrev pub SameButConditions : Types.Keycloak → Type 0
  SameButConditions sent = sent ≡ record cr { conditions = sent.conditions }

  -- All five resources were applied, and the status says whether the stateful set is ready.
  pub record RanThrough (log : List Event) : Type 0 where
    pub service : Service
    pub route : Route
    pub stateful_set : StatefulSet
    pub discovery : Service
    pub monitor : ServiceMonitor
    pub sent : Types.Keycloak
    pub reply : Outcome (Unit {0})
    pub log_is :
        log
        ≡ set_keycloak_status sent reply
          ∷ applied_service_monitor (at_monitor cr) (ok monitor)
          ∷ applied_service (at_discovery cr) (ok discovery)
          ∷ applied_stateful_set (at_stateful_set cr) (ok stateful_set)
          ∷ applied_route (at_route cr) (ok route)
          ∷ applied_service (at_service cr) (ok service)
          ∷ []
    pub same : SameButConditions sent
    pub verdict : is_ready lib sent.conditions ≡ is_stateful_set_ready (some stateful_set)

  -- A request failed after others that did not: nothing more was applied, and the status says so.
  pub record StoppedAt (log : List Event) : Type 0 where
    pub failing : Event
    pub error : Error
    pub earlier : List Event
    pub sent : Types.Keycloak
    pub reply : Outcome (Unit {0})
    pub log_is : log ≡ set_keycloak_status sent reply ∷ failing ∷ earlier
    pub ordered : in_order (failing ∷ earlier) ≡ true
    pub failed : ending failing ≡ badly error
    pub went_well : All EndedWell earlier
    pub same : SameButConditions sent
    pub verdict : is_ready lib sent.conditions ≡ false
    pub message :
        condition_msg lib lib.reconcile_success sent.conditions
        ≡ concat (stage_message (length earlier) ∷ ". " ∷ error.message ∷ [])

  -- A request panicked after others that went well, and no status was written.
  pub record CrashedAt (log : List Event) : Type 0 where
    pub crashing : Event
    pub earlier : List Event
    pub log_is : log ≡ crashing ∷ earlier
    pub ordered : in_order (crashing ∷ earlier) ≡ true
    pub crash : ending crashing ≡ crashed
    pub went_well : All EndedWell earlier

  abbrev pub Stages : List Event → Type 0
  Stages log = RanThrough log ⊎ StoppedAt log ⊎ CrashedAt log
