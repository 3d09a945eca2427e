-- ===== src/View/Data.antt =====
-- engine/visualizer.go and dto/visualization.go: what the visualizer is sent for one instance.
pub mod Offered
use brokr.Common.{String, Bool, Option, none, some, List, [], ◌∷◌, StrMap}
use brokr.Model.State.{get_id}
use brokr.Engine.Instance.{WorkflowInstance, JourneyEntry, workflow_fields, substate_id}
use brokr.Engine.Match.{possible_events_for}
use brokr.Engine.Reads.{ChildInstance, get_workflow_instance_raw, get_child_workflow_instances}
use brokr.Engine.Effects.{Host, Exec, pure, ◌>>=◌}
use brokr.View.Graph.{Graph, build_graph}

pub record InstanceSummary : Type 0 where
  pub id : String
  pub parent_id : Option String
  pub workflow_id : String
  pub workflow_version : String
  pub current_state : String
  pub current_substate : String
  pub complete : Bool
  pub last_transition : String
  pub context_map : StrMap

pub record VisualizationData : Type 0 where
  pub instance_summary : InstanceSummary
  pub graph : Graph
  pub journey : List JourneyEntry
  pub possible_events : List String
  pub children : List ChildInstance

-- buildVisualizationData
unfoldable pub build_visualization_data :
    WorkflowInstance → List String → List ChildInstance → VisualizationData
build_visualization_data wf possible_events children = record {
  instance_summary = record {
    id = wf.id;
    parent_id = wf.parent_id;
    workflow_id = (workflow_fields wf.workflow_definition).id;
    workflow_version = (workflow_fields wf.workflow_definition).version;
    current_state = get_id wf.current_state.state;
    current_substate = substate_id wf.current_state.substate;
    complete = wf.complete;
    last_transition = wf.last_transition;
    context_map = wf.context_map;
  };
  graph = build_graph wf.workflow_definition;
  journey = wf.journey;
  possible_events = possible_events;
  children = children;
}

module _ {F X : Type 0} (host : Host F X) where
  -- GetVisualizationData
  unfoldable pub get_visualization_data : String → Exec X VisualizationData
  unfolding build_visualization_data
  get_visualization_data id = do
    wf ← get_workflow_instance_raw host id
    children ← get_child_workflow_instances host id
    pure (build_visualization_data wf (possible_events_for host.floats wf wf.context_map) children)
