-- ===== src/Model/Decode.antt =====
-- model/statemachine.go and model/guard.go: the UnmarshalJSON methods of the string enumerations.
-- strings.ToUpper is a parameter.
pub mod Canonical
use brokr.Common.{String, Bool, ◌==◌, Option, none, some, List, [], ◌∷◌, if◌then◌else◌}
use brokr.Model.Kinds.{
  TriggerType, trigger_name, TransitionKind, kind_name, ActionType, action_type_name, GuardOp,
  op_name,
}
use brokr.Model.Workflow.{
  StateFields, State, simple, action_state, composite, CompositeState, Actions,
}

-- The constant that a switch on the string finds.
unfoldable pub constant : {A : Type 0} → (A → String) → List A → String → Option A
constant name [] s = none
constant name (a ∷ as') s = let rest = constant name as' s in if name a == s then some a else rest

abbrev pub triggers : List TriggerType
triggers = TriggerType.unset ∷ TriggerType.automatic ∷ TriggerType.user ∷ TriggerType.system ∷ []

abbrev pub transition_kinds : List TransitionKind
transition_kinds =
    TransitionKind.unset ∷ TransitionKind.external ∷ TransitionKind.internal ∷ TransitionKind.fork
    ∷ TransitionKind.join ∷ []

abbrev pub action_types : List ActionType
action_types =
    ActionType.unset ∷ ActionType.http_request ∷ ActionType.set_context_map
    ∷ ActionType.create_child_workflow ∷ []

abbrev pub guard_ops : List GuardOp
guard_ops =
    GuardOp.unset ∷ GuardOp.eq ∷ GuardOp.neq ∷ GuardOp.gt ∷ GuardOp.gte ∷ GuardOp.lt ∷ GuardOp.lte
    ∷ GuardOp.exists ∷ GuardOp.not_exists ∷ []

-- The methods, from the string that json.Unmarshal has read.
module _ (to_upper : String → String) where
  unfoldable pub unmarshal_trigger : String → Option TriggerType
  unmarshal_trigger raw = constant trigger_name triggers (to_upper raw)

  unfoldable pub unmarshal_kind : String → Option TransitionKind
  unmarshal_kind raw = constant kind_name transition_kinds (to_upper raw)

  unfoldable pub unmarshal_action_type : String → Option ActionType
  unmarshal_action_type raw = constant action_type_name action_types (to_upper raw)

  unfoldable pub unmarshal_op : String → Option GuardOp
  unmarshal_op raw = constant op_name guard_ops (to_upper raw)
