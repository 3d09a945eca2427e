-- ===== src/Engine/Children.antt =====
-- engine/children.go: the creation of child instances, and the gate of a join.
pub mod Kept
pub mod Fresh
pub mod Batch
use brokr.Common.{
  ℕ, zero, String, Bool, true, false, ◌==◌, Option, none, some, List, [], ◌∷◌, suc, if◌then◌else◌,
}
use brokr.Model.Kinds.{TriggerType, TransitionKind}
use brokr.Model.State.{get_id}
use brokr.Model.Workflow.{Workflow, State}
use brokr.Engine.Instance.{
  WorkflowInstance, JourneyEntry, StateContainer, substate_id, workflow_states, is_end_state,
}
use brokr.Engine.Position.{resolve_initial_position}
use brokr.Engine.Activities.{arm_state_activities}
use brokr.Engine.Effects.{
  Host, Error, index_out_of_range, Result, ok, err, Exec, pure, raise, lift, ask, try, inspect,
  both, ◌>>=◌, ◌>>◌,
}

-- The initialJourneyEntry, at the time that the clock shows.
unfoldable pub initial_journey_entry : State → Option State → ℕ → JourneyEntry
initial_journey_entry s sub time = record {
  timestamp = time;
  event = "";
  trigger = TriggerType.unset;
  kind = TransitionKind.unset;
  from_state = "";
  from_substate = "";
  to_state = get_id s;
  to_substate = substate_id sub;
}

-- States[0], which panics for an empty slice. Nothing in the engine recovers: a panic in a goroutine of
-- an actor, or of a batch, ends the program, and one in a handler is left to the server.
unfoldable pub first_state : List State → Result State
first_state [] = err index_out_of_range
first_state (s ∷ ss) = ok s

-- The row of a new instance in its first position.
unfoldable pub new_row :
    String → Option String → String → Workflow → State → Option State → ℕ → WorkflowInstance
unfolding initial_journey_entry
new_row id parent generation def s sub time = record {
  id = id;
  parent_id = parent;
  workflow_definition = def;
  current_state = record { state = s; substate = sub };
  last_transition = "";
  context_map = [];
  composite_history = [];
  journey = initial_journey_entry s sub time ∷ [];
  version = 0;
  complete = false;
  fork_generation = generation;
  pending_fork_generation = "";
  deleted = false;
}

unfoldable pub is_zero : ℕ → Bool
is_zero zero = true
is_zero (suc _) = false

module _ {F X : Type 0} (host : Host F X) where
  -- createChildWorkflowInstance: no completion runs out of the child's first state.
  unfoldable pub create_child_workflow_instance : String → Workflow → String → Exec X String
  unfolding lift first_state new_row
  create_child_workflow_instance parent_id def generation = do
    try (host.first_instance parent_id)
    parent ← lift (host.parse_uuid parent_id)
    first ← lift (first_state (workflow_states def))
    (s, sub) ← lift (resolve_initial_position first)
    id ← ask host.new_uuid
    time ← ask host.now
    let row = new_row id (some parent) generation def s sub time
    let child = record row { complete = is_end_state def (some s) }
    try (host.create_instance child)
    arm_state_activities host id child child.context_map
    pure id

  -- CreateChildWorkflowInstancesBatchWithGeneration: every creation runs, and the ids keep the order
  -- of the definitions.
  unfoldable pub create_child_workflow_instances_batch :
      String → List Workflow → String → Exec X (List String)
  unfolding both
  create_child_workflow_instances_batch parent_id [] generation = pure []
  create_child_workflow_instances_batch parent_id (def ∷ defs) generation = do
    (id, ids) ←
        both (create_child_workflow_instance parent_id def generation)
          (create_child_workflow_instances_batch parent_id defs generation)
    pure (id ∷ ids)

  -- allChildrenComplete: an empty generation counts every child.
  unfoldable pub all_children_complete : String → String → Exec X Bool
  unfolding is_zero
  all_children_complete parent_id generation = do
    incomplete ←
        try (host.count_incomplete parent_id (if generation == "" then none else some generation))
    pure (is_zero incomplete)
