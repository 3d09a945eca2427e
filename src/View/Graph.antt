-- ===== src/View/Graph.antt =====
-- dto/graph.go: the nodes and edges of a workflow definition.
pub mod Summary
pub mod Edges
pub mod Nodes
use brokr.Common.{
  ℕ, zero, suc, String, Bool, true, false, ◌==◌, ◌<>◌, Option, none, some, List, [], ◌∷◌, ◌++◌, map,
  decimal, if◌then◌else◌,
}
use brokr.Model.Kinds.{trigger_name, kind_name, history_name}
use brokr.Model.Composite
use brokr.Model.Composite.{initial_substate, substates, sub_transitions, history}
use brokr.Model.State
use brokr.Model.State.{
  get_id, get_type, get_frontend_bullet, get_bullet_name, get_resume_event, get_product_status,
  get_status, get_is_happy_flow, get_do_actions, as_composite, exit_actions,
}
use brokr.Model.Transition
use brokr.Model.Transition.{fields, targets, is_join, common_fields}
use brokr.Model.Workflow.{
  State, CompositeState, Transition, CommonTransition, ForkTarget, fork_target, Workflow,
  WorkflowRef, null, ref,
}
use brokr.Engine.Instance.{
  workflow_fields, workflow_states, workflow_transitions, workflow_common, contains,
}
use brokr.Engine.Match.{synthesize}
use brokr.View.Graph.Summary.{
  GraphActionSummary, GraphGuardSummary, summarize_action, summarize_guard,
}

pub record GraphNode : Type 0 where
  pub id : String
  pub type : String
  pub bullet_name : String
  pub status : String
  pub product_status : String
  pub frontend_bullet : Bool
  pub resume_event : String
  pub is_initial : Bool
  pub is_end : Bool
  pub is_happy_flow : Bool
  pub parent_id : String
  pub entry_actions : List GraphActionSummary
  pub exit_actions : List GraphActionSummary
  pub do_actions : List GraphActionSummary
  pub substates : List String
  pub initial_substate : String
  pub history : String

pub record GraphEdge : Type 0 where
  pub id : String
  pub source : String
  pub target : String
  pub event : String
  pub trigger : String
  pub kind : String
  pub guard : Option GraphGuardSummary
  pub entry_actions : List GraphActionSummary
  pub join : Bool
  pub after : String
  pub enters_history : Bool
  pub fork_targets : List String
  pub scope : String

pub record Graph : Type 0 where
  pub workflow_id : String
  pub version : String
  pub initial_state : String
  pub end_states : List String
  pub nodes : List GraphNode
  pub edges : List GraphEdge

-- The fields that only a CompositeState has, and those of any other state.
substate_ids : Option CompositeState → List String
substate_ids none = []
substate_ids (some comp) = map get_id (substates comp)

initial_of : Option CompositeState → String
initial_of none = ""
initial_of (some comp) = initial_substate comp

history_of : Option CompositeState → String
history_of none = ""
history_of (some comp) = history_name (history comp)

-- nodeFor; `ends` are the keys of the map endStates.
unfoldable pub node_for : State → String → List String → String → GraphNode
unfolding substate_ids initial_of history_of
node_for s parent_id ends initial_id = record {
  id = get_id s;
  type = get_type s;
  bullet_name = get_bullet_name s;
  status = get_status s;
  product_status = get_product_status s;
  frontend_bullet = get_frontend_bullet s;
  resume_event = get_resume_event s;
  is_initial = get_id s == initial_id;
  is_end = contains (get_id s) ends;
  is_happy_flow = get_is_happy_flow s;
  parent_id = parent_id;
  entry_actions = map summarize_action (State.entry_actions s);
  exit_actions = map summarize_action (exit_actions s);
  do_actions = map summarize_action (get_do_actions s);
  substates = substate_ids (as_composite s);
  initial_substate = initial_of (as_composite s);
  history = history_of (as_composite s);
}

id_of : WorkflowRef → String
id_of null = ""
id_of (ref def) = (workflow_fields def).id

-- if ref == "" && ft.ChildWorkflow != nil
fork_ref : ForkTarget → String
unfolding id_of
fork_ref (fork_target name child) = if name == "" then id_of child else name

-- edgeFor
unfoldable pub edge_for : ℕ → String → Transition → GraphEdge
unfolding fork_ref
edge_for index scope t = record {
  id =
      scope
      <> "-"
      <> (fields t).source
      <> "-"
      <> (fields t).target
      <> "-"
      <> (fields t).event
      <> "-"
      <> decimal index;
  source = (fields t).source;
  target = (fields t).target;
  event = (fields t).event;
  trigger = trigger_name (fields t).trigger;
  kind = kind_name (fields t).kind;
  guard = summarize_guard (fields t).guard;
  entry_actions = map summarize_action (Transition.entry_actions t);
  join = is_join t;
  after = (fields t).after;
  enters_history = (fields t).enters_history;
  fork_targets = map fork_ref (targets t);
  scope = scope;
}

-- for i, t := range transitions { … append(edges, edgeFor(i, scope, t)) }
unfoldable pub edges_from : ℕ → String → List Transition → List GraphEdge
edges_from i scope [] = []
edges_from i scope (t ∷ ts) = edge_for i scope t ∷ edges_from (suc i) scope ts

-- The nodes and edges inside a composite.
unfoldable pub inner_nodes : Option CompositeState → List String → String → List GraphNode
inner_nodes none ends initial = []
inner_nodes (some comp) ends initial =
    map (λ sub. node_for sub (Composite.id comp) ends initial) (substates comp)

unfoldable pub inner_edges : Option CompositeState → List GraphEdge
inner_edges none = []
inner_edges (some comp) = edges_from 0 ("sub:" <> Composite.id comp) (sub_transitions comp)

unfoldable pub nodes_of : List State → List String → String → List GraphNode
unfolding inner_nodes
nodes_of [] ends initial = []
nodes_of (s ∷ ss) ends initial =
    node_for s "" ends initial
    ∷ (inner_nodes (as_composite s) ends initial ++ nodes_of ss ends initial)

unfoldable pub sub_edges : List State → List GraphEdge
unfolding inner_edges
sub_edges [] = []
sub_edges (s ∷ ss) = inner_edges (as_composite s) ++ sub_edges ss

-- One edge for each source of a common transition, all with the index of the transition.
common_edge : ℕ → CommonTransition → String → GraphEdge
common_edge i c source = edge_for i "common" (synthesize source c)

unfoldable pub common_edges : ℕ → List CommonTransition → List GraphEdge
unfolding common_edge
common_edges i [] = []
common_edges i (c ∷ cs) =
    map (common_edge i c) (common_fields c).source_list ++ common_edges (suc i) cs

-- BuildGraph
unfoldable pub build_graph : Workflow → Graph
unfolding nodes_of sub_edges edges_from common_edges
build_graph def = record {
  workflow_id = (workflow_fields def).id;
  version = (workflow_fields def).version;
  initial_state = (workflow_fields def).initial_state;
  end_states = (workflow_fields def).end_states;
  nodes =
      nodes_of (workflow_states def) (workflow_fields def).end_states
        (workflow_fields def).initial_state;
  edges =
      sub_edges (workflow_states def)
      ++ (edges_from 0 "top" (workflow_transitions def) ++ common_edges 0 (workflow_common def));
}
