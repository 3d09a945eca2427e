-- ===== src/Engine/Instance.antt =====
-- persistence/others.go, persistence/state_container.go and dto/journey.go: the row of a workflow
-- instance, its position and its journey.
pub mod WellFormed
use brokr.Common.{ℕ, String, Bool, false, ◌==◌, ◌||◌, Option, none, some, List, [], ◌∷◌, StrMap}
use brokr.Model.Kinds.{TriggerType, TransitionKind}
use brokr.Model.State.{get_id}
use brokr.Model.Workflow.{Workflow, WorkflowFields, workflow, State, Transition, CommonTransition}
use brokr.Model.Workflow.{states, transitions, common_transitions}

-- A stored row always has a state: the nil interface occurs only before a row is read.
pub record StateContainer : Type 0 where
  pub state : State
  pub substate : Option State

unfoldable pub effective_state : StateContainer → State
effective_state c = elim c.substate [ none ↦ c.state | some sub ↦ sub ]

unfoldable pub effective_id : StateContainer → String
unfolding effective_state
effective_id c = get_id (effective_state c)

-- The id of the substate, or the empty string.
abbrev pub substate_id : Option State → String
substate_id none = ""
substate_id (some sub) = get_id sub

-- Timestamps are read from a clock.
pub record JourneyEntry : Type 0 where
  pub timestamp : ℕ
  pub event : String
  pub trigger : TriggerType
  pub kind : TransitionKind
  pub from_state : String
  pub from_substate : String
  pub to_state : String
  pub to_substate : String

pub record WorkflowInstance : Type 0 where
  pub id : String
  pub parent_id : Option String
  pub workflow_definition : Workflow
  pub current_state : StateContainer
  pub last_transition : String
  pub context_map : StrMap
  pub composite_history : StrMap
  pub journey : List JourneyEntry
  -- a Go int, as its 64-bit pattern
  pub version : ℕ
  pub complete : Bool
  pub fork_generation : String
  pub pending_fork_generation : String
  pub deleted : Bool

abbrev pub workflow_fields : Workflow → WorkflowFields
workflow_fields (workflow f _ _ _) = f

abbrev pub workflow_states : Workflow → List State
workflow_states (workflow _ ss _ _) = states ss

abbrev pub workflow_transitions : Workflow → List Transition
workflow_transitions (workflow _ _ ts _) = transitions ts

abbrev pub workflow_common : Workflow → List CommonTransition
workflow_common (workflow _ _ _ ts) = common_transitions ts

-- for _, s := range list { if s == id { … } }
unfoldable pub contains : String → List String → Bool
contains id [] = false
contains id (s ∷ ss) = s == id || contains id ss

-- isEndState; `none` is the nil interface.
unfoldable pub is_end_state : Workflow → Option State → Bool
unfolding contains
is_end_state def none = false
is_end_state def (some s) = contains (get_id s) (workflow_fields def).end_states
