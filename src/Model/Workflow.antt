-- ===== src/Model/Workflow.antt =====
-- model/statemachine.go, model/*_state.go and model/guard.go: the structs of a workflow definition.
-- A definition holds actions that hold definitions, so the structs are one block of data types; the
-- fields that hold none of the block stand in a record each.
use brokr.Common.{String, Bool, Option, List, [], ◌∷◌, StrMap}
use brokr.Model.Kinds.{TriggerType, WorkflowKind, TransitionKind, ActionType, GuardOp, HistoryKind}

pub record Guard : Type 0 where
  pub key : String
  pub op : GuardOp
  pub value : String

-- The fields that the three structs of states share.
pub record StateFields : Type 0 where
  pub type : String
  pub id : String
  pub frontend_bullet : Bool
  pub bullet_name : String
  pub resume_event : String
  pub product_status : String
  pub status : String
  pub is_happy_flow : Option Bool

pub record TransitionFields : Type 0 where
  pub trigger : TriggerType
  pub kind : TransitionKind
  pub source : String
  pub target : String
  pub event : String
  pub guard : Option Guard
  pub join : Bool
  pub after : String
  pub enters_history : Bool

pub record CommonFields : Type 0 where
  pub source_list : List String
  pub target : String
  pub event : String
  pub trigger : TriggerType
  pub kind : TransitionKind
  pub guard : Option Guard

pub record ActionFields : Type 0 where
  pub type : ActionType
  pub method : String
  pub url : String
  pub expect_response : Bool
  pub forward_token : Bool
  pub status : String
  pub variables : StrMap

pub record WorkflowFields : Type 0 where
  pub id : String
  pub kind : WorkflowKind
  pub version : String
  pub deprecated : Bool
  pub creation_date : String
  pub update_date : String
  pub initial_state : String
  pub end_states : List String

mutual
  -- States, Transitions and CommonTransitions follow the plain fields.
  pub data Workflow : Type 0 where
    workflow : WorkflowFields → States → Transitions → CommonTransitions → Workflow

  -- *Workflow, nil or not.
  pub data WorkflowRef : Type 0 where
    null : WorkflowRef
    ref : Workflow → WorkflowRef

  -- EntryActions, ExitActions and DoActions of *ActionState, behind ExpectResponse.
  pub data State : Type 0 where
    simple : StateFields → State
    action_state : StateFields → Bool → Actions → Actions → Actions → State
    composite : CompositeState → State

  pub data States : Type 0 where
    nil : States
    cons : State → States → States

  -- EntryActions, ExitActions, InitialSubstate, Substates, SubTransitions and History.
  pub data CompositeState : Type 0 where
    composite_state :
        StateFields
        → Actions
        → Actions
        → String
        → States
        → Transitions
        → HistoryKind
        → CompositeState

  -- EntryActions and ForkTargets.
  pub data Transition : Type 0 where
    transition : TransitionFields → Actions → ForkTargets → Transition

  pub data Transitions : Type 0 where
    nil_transitions : Transitions
    cons_transitions : Transition → Transitions → Transitions

  pub data CommonTransition : Type 0 where
    common_transition : CommonFields → Actions → CommonTransition

  pub data CommonTransitions : Type 0 where
    nil_common : CommonTransitions
    cons_common : CommonTransition → CommonTransitions → CommonTransitions

  -- ChildWorkflow.
  pub data Action : Type 0 where
    action : ActionFields → WorkflowRef → Action

  pub data Actions : Type 0 where
    nil_actions : Actions
    cons_actions : Action → Actions → Actions

  -- Ref and ChildWorkflow.
  pub data ForkTarget : Type 0 where
    fork_target : String → WorkflowRef → ForkTarget

  pub data ForkTargets : Type 0 where
    nil_targets : ForkTargets
    cons_targets : ForkTarget → ForkTargets → ForkTargets

-- The slices as lists.
abbrev pub states : States → List State
states nil = []
states (cons s ss) = s ∷ states ss

abbrev pub transitions : Transitions → List Transition
transitions nil_transitions = []
transitions (cons_transitions t ts) = t ∷ transitions ts

abbrev pub common_transitions : CommonTransitions → List CommonTransition
common_transitions nil_common = []
common_transitions (cons_common t ts) = t ∷ common_transitions ts

abbrev pub actions : Actions → List Action
actions nil_actions = []
actions (cons_actions a as') = a ∷ actions as'

abbrev pub fork_targets : ForkTargets → List ForkTarget
fork_targets nil_targets = []
fork_targets (cons_targets t ts) = t ∷ fork_targets ts
