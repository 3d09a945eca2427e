-- ===== src/Engine/Position.antt =====
-- engine/transitions.go: where a transition or a new instance arrives.
pub mod Known
use brokr.Common.{
  String, Bool, true, false, not, ◌==◌, ◌&&◌, Option, none, some, List, StrMap, lookup,
  if◌then◌else◌,
}
use brokr.Model.Kinds.{HistoryKind, no_history}
use brokr.Model.State.{get_id, as_composite}
use brokr.Model.Composite
use brokr.Model.Composite.{initial_substate, history, find_substate}
use brokr.Model.Transition.{fields}
use brokr.Model.Workflow.{Workflow, State, CompositeState, Transition}
use brokr.Engine.Instance.{workflow_fields, workflow_states}
use brokr.Engine.Match.{find_state_by_id}
use brokr.Engine.Effects.{
  Error, target_not_found, substate_not_found, initial_substate_not_found, Result, ok, err,
}

has_history : HistoryKind → Bool
has_history no_history = false
has_history _ = true

-- if last, ok := history[comp.Id]; ok && last != ""
remembered : Option String → String → String
remembered none initial = initial
remembered (some last) initial = if last == "" then initial else last

-- The substate id at which a composite is entered.
entry_substate : CompositeState → Transition → StrMap → String
unfolding has_history remembered
entry_substate comp t memory =
    if (fields t).enters_history && has_history (history comp)
    then remembered (lookup (Composite.id comp) memory) (initial_substate comp)
    else initial_substate comp

-- The state with the substate that was found, or the error.
arrive : State → Error → Option State → Result (State × Option State)
arrive s e none = err e
arrive s e (some sub) = ok (s, some sub)

enter : State → Transition → StrMap → Option CompositeState → Result (State × Option State)
unfolding arrive entry_substate
enter s t memory none = ok (s, none)
enter s t memory (some comp) =
    let id = entry_substate comp t memory in
    arrive s (substate_not_found (Composite.id comp) id) (find_substate comp id)

enter_target : Workflow → Transition → StrMap → Option State → Result (State × Option State)
unfolding enter
enter_target def t memory none = err (target_not_found (fields t).target (workflow_fields def).id)
enter_target def t memory (some s) = enter s t memory (as_composite s)

-- resolveTarget
unfoldable pub resolve_target : Workflow → Transition → StrMap → Result (State × Option State)
unfolding enter_target
resolve_target def t memory =
    enter_target def t memory (find_state_by_id (workflow_states def) (fields t).target)

start_in : State → Option CompositeState → Result (State × Option State)
unfolding arrive
start_in s none = ok (s, none)
start_in s (some comp) =
    arrive s (initial_substate_not_found (Composite.id comp) (initial_substate comp))
      (find_substate comp (initial_substate comp))

-- resolveInitialPosition
unfoldable pub resolve_initial_position : State → Result (State × Option State)
unfolding start_in
resolve_initial_position s = start_in s (as_composite s)
