-- ===== src/Engine/Reads.antt =====
-- engine/workflow_ops.go and engine/children.go: the entry points that read rows, and those that create
-- or withdraw an instance on request.
pub mod Stored
use brokr.Common.{String, Bool, Option, none, some, List, map}
use brokr.Model.Workflow.{Workflow, State}
use brokr.Engine.Instance.{WorkflowInstance}
use brokr.Engine.Match.{possible_events_for}
use brokr.Engine.Children.{create_child_workflow_instance}
use brokr.Engine.Event.{new_workflow_instance}
use brokr.Engine.Effects.{Host, definition_not_found, Exec, pure, raise, try, ◌>>=◌}

-- dto.ChildInstance; a stored row has a state.
pub record ChildInstance : Type 0 where
  pub id : String
  pub current_state : State
  pub complete : Bool

abbrev pub summarize_child : WorkflowInstance → ChildInstance
summarize_child child = record {
  id = child.id;
  current_state = child.current_state.state;
  complete = child.complete;
}

module _ {F X : Type 0} (host : Host F X) where
  -- GetWorkflowInstanceRaw
  unfoldable pub get_workflow_instance_raw : String → Exec X WorkflowInstance
  get_workflow_instance_raw id = try (host.first_instance id)

  -- GetWorkflowInstance
  unfoldable pub get_workflow_instance : String → Exec X Workflow
  get_workflow_instance id = do wf ← try (host.first_instance id); pure wf.workflow_definition

  -- GetPossibleEventsForWorkflowInstance
  unfoldable pub get_possible_events : String → Exec X (List String)
  get_possible_events id = do
    wf ← try (host.first_instance id)
    pure (possible_events_for host.floats wf wf.context_map)

  instance_of : String → Option Workflow → Exec X String
  instance_of name none = raise (definition_not_found name)
  instance_of name (some def) = new_workflow_instance host def

  -- NewWorkflowInstanceByName
  unfoldable pub new_workflow_instance_by_name : String → Exec X String
  unfolding instance_of
  new_workflow_instance_by_name name = do
    found ← try (host.first_definition name)
    instance_of name found

  -- CreateChildWorkflowInstance
  unfoldable pub create_child : String → Workflow → Exec X String
  create_child parent_id def = create_child_workflow_instance host parent_id def ""

  -- GetChildWorkflowInstances
  unfoldable pub get_child_workflow_instances : String → Exec X (List ChildInstance)
  get_child_workflow_instances parent_id = do
    children ← try (host.find_children parent_id)
    pure (map summarize_child children)

  -- WithdrawChildWorkflowInstance
  unfoldable pub withdraw_child_workflow_instance : String → String → Exec X (Unit {0})
  withdraw_child_workflow_instance parent_id child_id = do
    child ← try (host.first_child child_id parent_id)
    try (host.delete_instance child)
