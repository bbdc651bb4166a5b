-- ===== src/Controller/Reply.antt =====
-- What a reconciler returns, and the ready condition that both write at their end (`HandleError`
-- and `HandleSuccess`).
pub mod Laws
use Prim.Native.String.{◌++◌}
use rhbk_operator.Prelude.{ℕ, String, Bool, true, false, Option, none, some, List, [], ◌∷◌, concat}
use rhbk_operator.Prelude.Outcome.{Error}
use rhbk_operator.Kube.Exec.{Exec, pure, attempt}
use rhbk_operator.Api.Types.{Condition}
use rhbk_operator.Api.Conditions.{ConditionLib, set_ready}

-- The pair of a ctrl.Result and an error.
pub record Reply : Type 0 where
  pub requeue : Bool
  pub error : Option Error

abbrev pub done : Reply
done = record { requeue = false; error = none }

abbrev pub failed : Error → Reply
failed e = record { requeue = false; error = some e }

abbrev pub failed_again : Error → Reply
failed_again e = record { requeue = true; error = some e }

-- `return ctrl.Result{}, m`
abbrev pub return_error : {W : Type 0} → Exec W Unit → Exec W Reply
return_error m = attempt m (λ e. pure (failed e)) λ _. pure done

-- The message of `HandleError`: the text of the error follows if there is one.
unfoldable pub error_message : Option Error → String → String
error_message none msg = msg
error_message (some e) msg = concat (msg ∷ ". " ∷ e.message ∷ [])

-- The conditions that `HandleError` and `HandleSuccess` leave in the status.
unfoldable pub not_ready :
    ConditionLib → ℕ → Option Error → String → List Condition → List Condition
unfolding error_message set_ready
not_ready lib now e msg = set_ready lib now "False" (error_message e msg ∷ [])

unfoldable pub ready : ConditionLib → ℕ → List Condition → List Condition
unfolding set_ready
ready lib now = set_ready lib now "True" []
