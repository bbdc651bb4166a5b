-- ===== src/Controller/Protocol/Reporting.antt =====
-- The status at the end of a run follows the protocol.
use rhbk_operator.Prelude.{String, ◌≡◌, refl, Bool, true, false, Option}
use rhbk_operator.Prelude.Outcome.{Error, ok}
use rhbk_operator.Kube.Exec.{pure, attempt}
use rhbk_operator.Kube.Libs.{Libs}
use rhbk_operator.Kube.Client.{Client}
use rhbk_operator.Kube.Recording.{set_import_status, recorded, recording}
use rhbk_operator.Api.Types.{KeycloakImport}
use rhbk_operator.Api.Conditions.{ConditionLib, IsConditionLib, is_ready}
use rhbk_operator.Controller.Reply.{done, failed, not_ready, ready}
use rhbk_operator.Controller.Reply.Laws.{is_ready-not_ready, is_ready-ready}
use rhbk_operator.Controller.Import.{handle_error, handle_success}
use rhbk_operator.Controller.Protocol.{reporting, closed, give_up, report}
use rhbk_operator.Controller.Protocol.Rules.{Ends, Follows, follow-lift, follow-branch}

module _ {W : Type 0} (client : Client W) (libs : Libs) (lib : ConditionLib)
    (laws : IsConditionLib lib) (cr : KeycloakImport) where
  follow-status :
      (sent : KeycloakImport) (verdict : Bool)
      → sent ≡ record cr { conditions = sent.conditions }
      → is_ready lib sent.conditions ≡ verdict
      → Follows libs lib
          (reporting cr verdict)
          (attempt
            (recorded (set_import_status sent) (client.update_import_status sent))
            (λ e. pure (failed e))
            (λ _. pure done))
          Ends
  follow-status sent verdict same says =
      follow-branch libs lib (reporting cr verdict) (set_import_status sent)
        (client.update_import_status sent) (λ e. pure (failed e)) (λ _. pure done)
        (λ _. closed (ok done)) give_up Ends (λ r. report cr sent verdict r same says refl)
        (λ _. follow-lift libs lib (closed (ok done)) (ok done) Ends refl)
        (λ e. follow-lift libs lib (give_up e) (ok (failed e)) Ends refl) refl

  pub follow-handle_error :
      (e : Option Error) (msg : String)
      → Follows libs lib
          (reporting cr false)
          (handle_error (recording client) libs lib cr e msg)
          Ends
  unfolding handle_error
  follow-handle_error e msg key w log path =
      follow-status (record cr { conditions = not_ready lib (client.now w) e msg cr.conditions })
        false refl (is_ready-not_ready lib laws (client.now w) e msg cr.conditions) key w log path

  pub follow-handle_success :
      Follows libs lib (reporting cr true) (handle_success (recording client) libs lib cr) Ends
  unfolding handle_success
  follow-handle_success key w log path =
      follow-status (record cr { conditions = ready lib (client.now w) cr.conditions }) true refl
        (is_ready-ready lib laws (client.now w) cr.conditions) key w log path
