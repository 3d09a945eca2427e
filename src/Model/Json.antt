-- ===== src/Model/Json.antt =====
-- model/statemachine.go and model/composite_state.go: DecodeState and the UnmarshalJSON methods of
-- CompositeState and Workflow, which call it for each of the states that they hold. encoding/json is
-- a parameter: for the bytes `B`, json.Unmarshal into the structs that the code passes to it, and
-- json.Marshal. The definitions of children within actions are read and written by the codec.
pub mod Fixpoint
pub mod Plain
pub mod RoundTrip
use brokr.Common.{
  ℕ, zero, suc, String, Bool, ◌==◌, Option, none, some, List, [], ◌∷◌, if◌then◌else◌,
}
use brokr.Model.Kinds.{HistoryKind}
use brokr.Model.Workflow.{
  StateFields, WorkflowFields, State, simple, action_state, composite, composite_state, States, nil,
  cons, Actions, Transitions, CommonTransitions, Workflow, workflow,
}

-- *alias in CompositeState.UnmarshalJSON, less the substates.
pub record CompositeAlias : Type 0 where
  pub fields : StateFields
  pub entry_actions : Actions
  pub exit_actions : Actions
  pub initial_substate : String
  pub sub_transitions : Transitions
  pub history : HistoryKind

-- *alias in Workflow.UnmarshalJSON, less the states.
pub record WorkflowAlias : Type 0 where
  pub fields : WorkflowFields
  pub transitions : Transitions
  pub common_transitions : CommonTransitions

pub record Codec (B : Type 0) : Type 0 where
  -- the number of bytes
  pub size : B → ℕ
  -- into the struct that DecodeState peeks with, and into the structs of states
  pub peek : B → Option String
  pub unmarshal_simple : B → Option StateFields
  pub unmarshal_action : B → Option (StateFields × Bool × Actions × Actions × Actions)
  -- into aux: the alias, and the raw message of each state
  pub unmarshal_composite : B → Option (CompositeAlias × List B)
  pub unmarshal_workflow : B → Option (WorkflowAlias × List B)
  pub marshal_state : State → Option B
  pub marshal_workflow : Workflow → Option B

decode_simple : Option StateFields → Option State
decode_simple none = none
decode_simple (some f) = some (simple f)

decode_action : Option (StateFields × Bool × Actions × Actions × Actions) → Option State
decode_action none = none
decode_action (some (f, expect, entry, exit, activity)) =
    some (action_state f expect entry exit activity)

composite_of : CompositeAlias → Option States → Option State
composite_of a none = none
composite_of a (some subs) = some (
    composite (
      composite_state a.fields a.entry_actions a.exit_actions a.initial_substate subs
        a.sub_transitions a.history))

workflow_of : WorkflowAlias → Option States → Option Workflow
workflow_of a none = none
workflow_of a (some ss) = some (workflow a.fields ss a.transitions a.common_transitions)

then_cons : Option State → Option States → Option States
then_cons none rest = none
then_cons (some s) none = none
then_cons (some s) (some ss) = some (cons s ss)

module _ {B : Type 0} where
  -- for _, raw := range aux.Substates { sub, err := DecodeState(raw); … }
  pub decode_all : (B → Option State) → List B → Option States
  unfolding then_cons
  decode_all decode [] = some nil
  decode_all decode (raw ∷ raws) = then_cons (decode raw) (decode_all decode raws)

  -- CompositeState.UnmarshalJSON
  decode_composite : (B → Option State) → Option (CompositeAlias × List B) → Option State
  unfolding decode_all composite_of
  decode_composite decode none = none
  decode_composite decode (some (a, raws)) = composite_of a (decode_all decode raws)

module _ {B : Type 0} (codec : Codec B) where
  -- The switch of DecodeState, with what decodes the substates.
  pub decode_typed : (B → Option State) → Option String → B → Option State
  unfolding decode_action decode_composite decode_simple
  decode_typed decode none b = none
  decode_typed decode (some type) b =
      if type == "ActionState"
      then decode_action (codec.unmarshal_action b)
      else if type == "CompositeState"
      then decode_composite decode (codec.unmarshal_composite b)
      else if type == "SimpleState"
      then decode_simple (codec.unmarshal_simple b)
      else if type == ""
      then decode_simple (codec.unmarshal_simple b)
      else none

  -- The calls of DecodeState nest to this depth at most.
  decode_within : ℕ → B → Option State
  unfolding decode_typed
  decode_within zero b = none
  decode_within (suc depth) b = decode_typed (decode_within depth) (codec.peek b) b

  -- DecodeState
  unfoldable pub decode_state : B → Option State
  unfolding decode_within
  decode_state b = decode_within (suc (codec.size b)) b

  decode_definition : Option (WorkflowAlias × List B) → Option Workflow
  unfolding decode_all workflow_of
  decode_definition none = none
  decode_definition (some (a, raws)) = workflow_of a (decode_all decode_state raws)

  -- Workflow.UnmarshalJSON
  unfoldable pub decode_workflow : B → Option Workflow
  unfolding decode_definition
  decode_workflow b = decode_definition (codec.unmarshal_workflow b)
