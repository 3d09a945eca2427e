-- ===== src/View/Graph/Nodes.antt =====
-- The position of an instance is drawn.
use mathlib.Core.List.{Memᴰ}
use mathlib.Core.List.Memᴰ
use mathlib.Core.List.Memᴰ.{append_left, append_right}
use brokr.Common.{String, Option, none, some, List, [], ◌∷◌, ◌≡◌, refl, ap, subst}
use brokr.Model.Composite
use brokr.Model.Composite.{substates}
use brokr.Model.State.{get_id, as_composite}
use brokr.Model.Workflow.{State, simple, action_state, composite, Workflow}
use brokr.Engine.Instance.{StateContainer, workflow_fields, workflow_states, is_end_state}
use brokr.Engine.Instance.WellFormed.{Inhabits, IsPosition}
use brokr.View.Graph.{GraphNode, node_for, inner_nodes, nodes_of, build_graph}

-- The node that the graph of a definition has for a state.
abbrev pub drawn : Workflow → State → String → GraphNode
drawn def s parent_id =
    node_for s parent_id (workflow_fields def).end_states (workflow_fields def).initial_state

-- A substate has a node that names its composite.
abbrev pub SubstateShown : Workflow → State → Option State → Type 0
SubstateShown def s none = Unit
SubstateShown def s (some sub) = Memᴰ (drawn def sub (get_id s)) (build_graph def).nodes

pub record IsShown (def : Workflow) (c : StateContainer) : Type 0 where
  pub state_shown : Memᴰ (drawn def c.state "") (build_graph def).nodes
  pub end_marked : (drawn def c.state "").is_end ≡ is_end_state def (some c.state)
  pub substate_shown : SubstateShown def c.state c.substate

module _ (ends : List String) (initial : String) where
  node_of-Memᴰ :
      (ss : List State) {s : State}
      → Memᴰ s ss
      → Memᴰ (node_for s "" ends initial) (nodes_of ss ends initial)
  unfolding nodes_of
  node_of-Memᴰ [] m = elim m [ ]
  node_of-Memᴰ (x ∷ ss) (Memᴰ.head e) = Memᴰ.head (ap (λ s. node_for s "" ends initial) e)
  node_of-Memᴰ (x ∷ ss) (Memᴰ.tail m) = Memᴰ.tail (append_right _ (node_of-Memᴰ ss m))

  inner_of-Memᴰ :
      (ss : List State) (n : GraphNode) {s : State}
      → Memᴰ s ss
      → Memᴰ n (inner_nodes (as_composite s) ends initial)
      → Memᴰ n (nodes_of ss ends initial)
  unfolding nodes_of
  inner_of-Memᴰ [] n m h = elim m [ ]
  inner_of-Memᴰ (x ∷ ss) n (Memᴰ.head e) h =
      Memᴰ.tail
        (append_left _ (subst (λ s. Memᴰ n (inner_nodes (as_composite s) ends initial)) e h))
  inner_of-Memᴰ (x ∷ ss) n (Memᴰ.tail m) h = Memᴰ.tail (append_right _ (inner_of-Memᴰ ss n m h))

  substate-Memᴰ :
      (s sub : State)
      → Inhabits (as_composite s) (some sub)
      → Memᴰ (node_for sub (get_id s) ends initial) (inner_nodes (as_composite s) ends initial)
  unfolding inner_nodes
  substate-Memᴰ (composite c) sub m = Memᴰ.map (λ sub. node_for sub (Composite.id c) ends initial) m
  substate-Memᴰ (simple f) sub m = elim m [ ]
  substate-Memᴰ (action_state f expect entry exit activity) sub m = elim m [ ]

substate-SubstateShown :
    (def : Workflow) (s : State) (sub : Option State)
    → Memᴰ s (workflow_states def)
    → Inhabits (as_composite s) sub
    → SubstateShown def s sub
unfolding build_graph
substate-SubstateShown def s none m h = tt
substate-SubstateShown def s (some sub) m h =
    inner_of-Memᴰ _ _ (workflow_states def) _ m (substate-Memᴰ _ _ s sub h)

-- A position of the definition has a node for its state, which is marked as an end exactly if the
-- engine takes it for one, and a node for its substate, which names the state.
pub position-IsShown : (def : Workflow) (c : StateContainer) → IsPosition def c → IsShown def c
unfolding build_graph node_for is_end_state
position-IsShown def c p = record {
  state_shown = node_of-Memᴰ _ _ (workflow_states def) p.state_known;
  end_marked = refl;
  substate_shown = substate-SubstateShown def c.state c.substate p.state_known p.substate_known;
}
