-- ===== src/Model/Composite.antt =====
-- model/composite_state.go: the fields of a CompositeState and FindSubstate.
use brokr.Common.{String, ◌==◌, Option, List, first}
use brokr.Model.Kinds.{HistoryKind}
use brokr.Model.State.{get_id}
use brokr.Model.Workflow.{
  State, CompositeState, composite, composite_state, Transition, states, transitions,
}

abbrev pub id : CompositeState → String
id c = get_id (composite c)

abbrev pub initial_substate : CompositeState → String
initial_substate (composite_state _ _ _ initial _ _ _) = initial

abbrev pub substates : CompositeState → List State
substates (composite_state _ _ _ _ subs _ _) = states subs

abbrev pub sub_transitions : CompositeState → List Transition
sub_transitions (composite_state _ _ _ _ _ ts _) = transitions ts

abbrev pub history : CompositeState → HistoryKind
history (composite_state _ _ _ _ _ _ h) = h

-- FindSubstate: the first substate with the id, or nil.
unfoldable pub find_substate : CompositeState → String → Option State
find_substate c wanted = first (λ s. get_id s == wanted) (substates c)
