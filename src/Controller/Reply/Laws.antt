-- ===== src/Controller/Reply/Laws.antt =====
-- What a status update at the end of a run leaves: one more event, and its error as the reply.
use rhbk_operator.Prelude.{ℕ, String, ◌≡◌, refl, true, false, Option, List, [], ◌∷◌}
use rhbk_operator.Prelude.Outcome.{Error, Outcome, ok, err, panic}
use rhbk_operator.Kube.Exec.{Exec, pure, continue}
use rhbk_operator.Kube.Recording.{Event, recorded, log_of}
use rhbk_operator.Api.Types.{Condition}
use rhbk_operator.Api.Conditions.{ConditionLib, IsConditionLib, is_ready, condition_msg}
use rhbk_operator.Api.Conditions.Laws.{is_ready-set_ready, condition_msg-set_ready}
use rhbk_operator.Controller.Reply.{done, failed, return_error, error_message, not_ready, ready}

module _ {W : Type 0} (event : Outcome (Unit {0}) → Event) where
  log-continue :
      (r : Outcome (Unit {0})) (w : W) (log : List Event)
      → log_of (continue r (λ e. pure (failed e)) (λ _. pure done) (w, log)) ≡ log
  log-continue (ok tt) w log = refl
  log-continue (err e) w log = refl
  log-continue panic w log = refl

  pub log-return_error :
      (m : Exec W (Unit {0})) (w : W) (log : List Event)
      → log_of (return_error (recorded event m) (w, log)) ≡ event (m w).0 ∷ log
  log-return_error m w log = log-continue (m w).0 (m w).1 (event (m w).0 ∷ log)

module _ (lib : ConditionLib) (laws : IsConditionLib lib) where
  -- The two ends of a run write opposite verdicts.
  pub is_ready-not_ready :
      (now : ℕ) (e : Option Error) (msg : String) (cs : List Condition)
      → is_ready lib (not_ready lib now e msg cs) ≡ false
  unfolding not_ready
  is_ready-not_ready now e msg cs =
      is_ready-set_ready lib laws now "False" (error_message e msg ∷ []) cs

  pub is_ready-ready : (now : ℕ) (cs : List Condition) → is_ready lib (ready lib now cs) ≡ true
  unfolding ready
  is_ready-ready now cs = is_ready-set_ready lib laws now "True" [] cs

  pub condition_msg-not_ready :
      (now : ℕ) (e : Option Error) (msg : String) (cs : List Condition)
      → condition_msg lib lib.reconcile_success (not_ready lib now e msg cs) ≡ error_message e msg
  unfolding not_ready
  condition_msg-not_ready now e msg cs =
      condition_msg-set_ready lib laws now "False" (error_message e msg) cs
