-- ===== src/Api/Conditions/Laws.antt =====
-- Setting the ready condition and asking for it.
use rhbk_operator.Prelude.{ℕ, String, ◌≡◌, List, [], ◌∷◌, ◌==◌}
use rhbk_operator.Api.Types.{Condition}
use rhbk_operator.Api.Conditions.{
  ConditionLib, IsConditionLib, get_opt, set_ready, is_ready, condition_msg,
}

module _ (lib : ConditionLib) (laws : IsConditionLib lib) where
  abbrev ready_condition : ℕ → String → List String → Condition
  ready_condition now status msg = record {
    kind = lib.reconcile_success;
    status = status;
    last_transition_time = now;
    reason = lib.reconcile_success_reason;
    message = get_opt 0 msg;
  }

  -- Where the condition library keeps its laws, `IsReady` after `SetReady` says whether the status that was set is "True".
  pub is_ready-set_ready :
      (now : ℕ) (status : String) (msg : List String) (cs : List Condition)
      → is_ready lib (set_ready lib now status msg cs) ≡ (status == "True")
  unfolding is_ready set_ready
  is_ready-set_ready now status msg cs =
      rw (laws.get-add_self (ready_condition now status msg) cs, is_ready)

  -- The message is the one that was set.
  pub condition_msg-set_ready :
      (now : ℕ) (status msg : String) (cs : List Condition)
      → condition_msg lib lib.reconcile_success (set_ready lib now status (msg ∷ []) cs) ≡ msg
  unfolding condition_msg set_ready
  condition_msg-set_ready now status msg cs =
      rw (laws.get-add_self (ready_condition now status (msg ∷ [])) cs, condition_msg)
