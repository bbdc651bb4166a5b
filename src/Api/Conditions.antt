-- ===== src/Api/Conditions.antt =====
-- api/v1alpha1/condition.go. `apis.AddOrReplaceCondition`, `apis.GetCondition` and two constants are
-- those of redhat-cop/operator-utils: the parameter `ConditionLib`, with what its documentation says.
pub mod Laws
use rhbk_operator.Prelude.{
  ℕ, ◌+◌, String, ◌≡◌, ◌≢◌, Bool, false, Option, none, some, List, [], ◌∷◌, ltb, ◌==◌, length,
  get_elem?, if◌then◌else◌,
}
use rhbk_operator.Api.Types.{Condition}

pub record ConditionLib : Type 0 where
  pub reconcile_success : String
  pub reconcile_success_reason : String
  pub add_or_replace : Condition → List Condition → List Condition
  -- `GetCondition` answers the condition of the type, if there is one.
  pub get_condition : String → List Condition → Option Condition

-- A condition that was added is the one of its type; those of other types stay.
pub record IsConditionLib (lib : ConditionLib) : Type 0 where
  pub get-add_self :
      (c : Condition) (cs : List Condition)
      → lib.get_condition c.kind (lib.add_or_replace c cs) ≡ some c
  pub get-add_ne :
      (c : Condition) (cs : List Condition) (kind : String)
      → c.kind ≢ kind
      → lib.get_condition kind (lib.add_or_replace c cs) ≡ lib.get_condition kind cs

-- `getOpt(idx, opts...)`
unfoldable pub get_opt : ℕ → List String → String
get_opt idx opts =
    if ltb (length opts) (idx + 1)
    then ""
    else elim (get_elem? opts idx) [ none ↦ "" | some opt ↦ opt ]

module _ (lib : ConditionLib) where
  -- `s.UpdateCondition(conditionType, conditionStatus, opts...)` at the time `now`.
  unfoldable pub update_condition :
      ℕ → String → String → List String → List Condition → List Condition
  unfolding get_opt
  update_condition now kind status opts conditions =
      lib.add_or_replace
        (record {
          kind = kind;
          status = status;
          last_transition_time = now;
          reason = get_opt 0 opts;
          message = get_opt 1 opts;
        })
        conditions

  -- `s.SetReady(conditionStatus, msg...)`
  unfoldable pub set_ready : ℕ → String → List String → List Condition → List Condition
  unfolding update_condition
  set_ready now status msg conditions =
      update_condition now lib.reconcile_success status
        (lib.reconcile_success_reason ∷ get_opt 0 msg ∷ []) conditions

  unfoldable pub is_ready : List Condition → Bool
  is_ready conditions = elim (lib.get_condition lib.reconcile_success conditions) [
    | none ↦ false
    | some c ↦ c.status == "True"
  ]

  unfoldable pub condition_msg : String → List Condition → String
  condition_msg ct conditions = elim (lib.get_condition ct conditions) [
    | none ↦ ""
    | some c ↦ c.message
  ]
