-- ===== src/Model/State.antt =====
-- model/simple_state.go, model/action_state.go and model/composite_state.go: the methods of the
-- interface State, by the struct that it holds.
use brokr.Common.{String, Bool, true, not, ◌==◌, Option, none, some, List, []}
use brokr.Model.Workflow.{
  StateFields, State, simple, action_state, composite, CompositeState, composite_state, Action,
  actions,
}

abbrev pub fields : State → StateFields
fields (simple f) = f
fields (action_state f _ _ _ _) = f
fields (composite (composite_state f _ _ _ _ _ _)) = f

abbrev pub get_id : State → String
get_id s = (fields s).id

abbrev pub get_type : State → String
get_type s = (fields s).type

abbrev pub get_frontend_bullet : State → Bool
get_frontend_bullet s = (fields s).frontend_bullet

abbrev pub get_bullet_name : State → String
get_bullet_name s = (fields s).bullet_name

abbrev pub get_resume_event : State → String
get_resume_event s = (fields s).resume_event

abbrev pub get_product_status : State → String
get_product_status s = (fields s).product_status

abbrev pub get_status : State → String
get_status s = (fields s).status

abbrev pub is_resumable : State → Bool
is_resumable s = not (get_resume_event s == "")

-- An absent flag means true.
abbrev pub get_is_happy_flow : State → Bool
get_is_happy_flow s = elim (fields s).is_happy_flow [ none ↦ true | some b ↦ b ]

-- The actions that ExecuteEntryActions and ExecuteExitActions run; a SimpleState has none.
abbrev pub entry_actions : State → List Action
entry_actions (simple _) = []
entry_actions (action_state _ _ entry _ _) = actions entry
entry_actions (composite (composite_state _ entry _ _ _ _ _)) = actions entry

abbrev pub exit_actions : State → List Action
exit_actions (simple _) = []
exit_actions (action_state _ _ _ exit _) = actions exit
exit_actions (composite (composite_state _ _ exit _ _ _ _)) = actions exit

abbrev pub get_do_actions : State → List Action
get_do_actions (action_state _ _ _ _ activity) = actions activity
get_do_actions _ = []

-- comp, ok := s.(*CompositeState)
abbrev pub as_composite : State → Option CompositeState
as_composite (composite c) = some c
as_composite _ = none
