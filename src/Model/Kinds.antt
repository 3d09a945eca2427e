-- ===== src/Model/Kinds.antt =====
-- The string enumerations of model/statemachine.go, model/composite_state.go and model/guard.go. A
-- decoded definition holds one of the constants or the empty string, here `unset`; a WorkflowKind and
-- a HistoryKind have no UnmarshalJSON of their own, and may be any other text.
use brokr.Common.{String, Bool, true, false}

pub data TriggerType : Type 0 where
  unset automatic user system : TriggerType

pub data WorkflowKind : Type 0 where
  unset user : WorkflowKind
  other_text : String → WorkflowKind

pub data TransitionKind : Type 0 where
  unset external internal fork join : TransitionKind

pub data ActionType : Type 0 where
  unset http_request set_context_map create_child_workflow : ActionType

pub data GuardOp : Type 0 where
  unset eq neq gt gte lt lte exists not_exists : GuardOp

pub data HistoryKind : Type 0 where
  no_history shallow deep : HistoryKind
  other_text : String → HistoryKind

-- The comparisons of these strings that the engine makes.
unfoldable pub is_automatic : TriggerType → Bool
is_automatic TriggerType.automatic = true
is_automatic _ = false

unfoldable pub is_internal : TransitionKind → Bool
is_internal TransitionKind.internal = true
is_internal _ = false

unfoldable pub is_fork : TransitionKind → Bool
is_fork TransitionKind.fork = true
is_fork _ = false

unfoldable pub is_create_child : ActionType → Bool
is_create_child ActionType.create_child_workflow = true
is_create_child _ = false

-- The constants as they stand in JSON.
unfoldable pub trigger_name : TriggerType → String
trigger_name TriggerType.unset = ""
trigger_name TriggerType.automatic = "AUTOMATIC"
trigger_name TriggerType.user = "USER"
trigger_name TriggerType.system = "SYSTEM"

unfoldable pub kind_name : TransitionKind → String
kind_name TransitionKind.unset = ""
kind_name TransitionKind.external = "EXTERNAL"
kind_name TransitionKind.internal = "INTERNAL"
kind_name TransitionKind.fork = "FORK"
kind_name TransitionKind.join = "JOIN"

unfoldable pub action_type_name : ActionType → String
action_type_name ActionType.unset = ""
action_type_name ActionType.http_request = "HTTPREQUESTACTION"
action_type_name ActionType.set_context_map = "SETCONTEXTMAPACTION"
action_type_name ActionType.create_child_workflow = "CREATECHILDWORKFLOWACTION"

unfoldable pub op_name : GuardOp → String
op_name GuardOp.unset = ""
op_name GuardOp.eq = "EQ"
op_name GuardOp.neq = "NEQ"
op_name GuardOp.gt = "GT"
op_name GuardOp.gte = "GTE"
op_name GuardOp.lt = "LT"
op_name GuardOp.lte = "LTE"
op_name GuardOp.exists = "EXISTS"
op_name GuardOp.not_exists = "NOT_EXISTS"

unfoldable pub history_name : HistoryKind → String
history_name HistoryKind.no_history = ""
history_name HistoryKind.shallow = "shallow"
history_name HistoryKind.deep = "deep"
history_name (HistoryKind.other_text text) = text
