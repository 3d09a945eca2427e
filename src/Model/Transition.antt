-- ===== src/Model/Transition.antt =====
-- model/statemachine.go: the fields of Transition, CommonTransition, Action, ForkTarget and Workflow.
use brokr.Common.{Bool, true, false, ◌||◌, List}
use brokr.Model.Kinds.{TransitionKind}
use brokr.Model.Workflow.{
  TransitionFields, Transition, transition, CommonFields, CommonTransition, common_transition,
  Action, actions, ForkTarget, fork_targets,
}

abbrev pub fields : Transition → TransitionFields
fields (transition f _ _) = f

abbrev pub entry_actions : Transition → List Action
entry_actions (transition _ entry _) = actions entry

abbrev pub targets : Transition → List ForkTarget
targets (transition _ _ forks) = fork_targets forks

abbrev is_join_kind : TransitionKind → Bool
is_join_kind TransitionKind.join = true
is_join_kind _ = false

-- IsJoin: by the kind or by the legacy flag.
unfoldable pub is_join : Transition → Bool
is_join t = is_join_kind (fields t).kind || (fields t).join

abbrev pub common_fields : CommonTransition → CommonFields
common_fields (common_transition f _) = f
