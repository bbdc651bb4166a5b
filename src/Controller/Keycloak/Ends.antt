-- ===== src/Controller/Keycloak/Ends.antt =====
-- How a run of the Keycloak reconciler ends, once its last request is made.
use rhbk_operator.Prelude.{
  ◌≡◌, refl, sym, ◌∙◌, inl, inr, Bool, true, false, none, some, List, [], ◌∷◌, All, length,
  if◌then◌else◌,
}
use rhbk_operator.Prelude.Outcome.{Error, ok}
use rhbk_operator.Kube.Objects.{Service, Route, StatefulSet, ServiceMonitor}
use rhbk_operator.Kube.Libs.{Libs}
use rhbk_operator.Kube.Client.{Client}
use rhbk_operator.Kube.Recording.{
  Event, set_keycloak_status, applied_service, applied_route, applied_stateful_set,
  applied_service_monitor, recorded, recording, log_of, crashed, badly, ending, EndedWell,
}
use rhbk_operator.Api.Types
use rhbk_operator.Api.Conditions.{ConditionLib, IsConditionLib, is_ready}
use rhbk_operator.Resources.Status.{is_stateful_set_ready}
use rhbk_operator.Controller.Reply.Laws.{
  log-return_error, is_ready-not_ready, is_ready-ready, condition_msg-not_ready,
}
use rhbk_operator.Controller.Reply.{return_error, not_ready, ready, error_message}
use rhbk_operator.Controller.Keycloak.{handle_error, handle_success, report}
use rhbk_operator.Controller.Keycloak.Stages.{
  at_service, at_route, at_stateful_set, at_discovery, at_monitor, in_order, stage_message,
  SameButConditions, RanThrough, Stages,
}

module _ {W : Type 0} (client : Client W) (libs : Libs) (lib : ConditionLib)
    (laws : IsConditionLib lib) (cr : Types.Keycloak) where
  pub stopped :
      (failing : Event) (e : Error) (earlier : List Event) (w : W)
      → in_order (failing ∷ earlier) ≡ true
      → ending failing ≡ badly e
      → All EndedWell earlier
      → Stages lib cr (
          log_of (
            handle_error
              (recording client)
              libs
              lib
              cr
              (some e)
              (stage_message (length earlier))
              (w, failing ∷ earlier)))
  unfolding handle_error error_message
  stopped failing e earlier w ordered failed went_well = inr (
      inl (record {
        failing = failing;
        error = e;
        earlier = earlier;
        sent = sent;
        reply = (client.update_keycloak_status sent w).0;
        log_is =
            log-return_error (set_keycloak_status sent) (client.update_keycloak_status sent) w _;
        ordered = ordered;
        failed = failed;
        went_well = went_well;
        same = refl;
        verdict =
            is_ready-not_ready lib laws (client.now w) (some e) (stage_message (length earlier))
              cr.conditions;
        message =
            condition_msg-not_ready lib laws (client.now w) (some e)
              (stage_message (length earlier)) cr.conditions;
      }))
    where
      sent : Types.Keycloak
      sent = record cr {
        conditions =
            not_ready lib (client.now w) (some e) (stage_message (length earlier)) cr.conditions;
      }

  pub crash :
      (crashing : Event) (earlier : List Event)
      → in_order (crashing ∷ earlier) ≡ true
      → ending crashing ≡ crashed
      → All EndedWell earlier
      → Stages lib cr (crashing ∷ earlier)
  crash crashing earlier ordered crashes went_well = inr (
      inr (record {
        crashing = crashing;
        earlier = earlier;
        log_is = refl;
        ordered = ordered;
        crash = crashes;
        went_well = went_well;
      }))

  module _ (v : Service) (r : Route) (s : StatefulSet) (d : Service) (m : ServiceMonitor)
      (w : W) where
    abbrev applied : List Event
    applied =
        applied_service_monitor (at_monitor cr) (ok m)
        ∷ applied_service (at_discovery cr) (ok d)
        ∷ applied_stateful_set (at_stateful_set cr) (ok s)
        ∷ applied_route (at_route cr) (ok r)
        ∷ applied_service (at_service cr) (ok v)
        ∷ []

    through :
        (sent : Types.Keycloak)
        → SameButConditions lib cr sent
        → is_ready lib sent.conditions ≡ is_stateful_set_ready (some s)
        → RanThrough lib cr (
            log_of (
              return_error
                (recorded (set_keycloak_status sent) (client.update_keycloak_status sent))
                (w, applied)))
    through sent same verdict = record {
      service = v;
      route = r;
      stateful_set = s;
      discovery = d;
      monitor = m;
      sent = sent;
      reply = (client.update_keycloak_status sent w).0;
      log_is =
          log-return_error (set_keycloak_status sent) (client.update_keycloak_status sent) w
            applied;
      same = same;
      verdict = verdict;
    }

    verdict :
        (b : Bool)
        → is_stateful_set_ready (some s) ≡ b
        → RanThrough lib cr (
            log_of (
              (if b
                  then handle_success (recording client) libs lib cr
                  else handle_error
                      (recording client)
                      libs
                      lib
                      cr
                      none
                      "Waiting for resources to be ready")
                (w, applied)))
    unfolding handle_error handle_success
    verdict true up =
        through (record cr { conditions = ready lib (client.now w) cr.conditions }) refl
          (is_ready-ready lib laws (client.now w) cr.conditions ∙ sym up)
    verdict false down =
        through
          (record cr {
            conditions =
                not_ready lib (client.now w) none "Waiting for resources to be ready" cr.conditions;
          })
          refl
          (is_ready-not_ready lib laws (client.now w) none "Waiting for resources to be ready"
              cr.conditions
            ∙ sym down)

    pub finished : Stages lib cr (log_of (report (recording client) libs lib cr s (w, applied)))
    unfolding report
    finished = inl (verdict (is_stateful_set_ready (some s)) refl)
