-- ===== src/Engine/Match.antt =====
-- engine/transitions.go and engine/workflow_ops.go: which transition fires for an event, which fires
-- by itself, which are deferred, and which events a client may send.
pub mod Candidates
pub mod Completion
pub mod Offered
use brokr.Common.{
  String, Bool, true, false, not, ◌==◌, ◌&&◌, Option, none, some, List, [], ◌∷◌, ◌++◌, StrMap,
  first, select, map,
}
use brokr.Model.Kinds.{is_automatic}
use brokr.Model.Guard.{Floats, evaluate}
use brokr.Model.State.{get_id, as_composite}
use brokr.Model.Composite.{sub_transitions}
use brokr.Model.Transition.{fields, is_join, common_fields}
use brokr.Model.Workflow.{
  State, CompositeState, Transition, transition, CommonTransition, common_transition, nil_targets,
}
use brokr.Engine.Instance.{
  StateContainer, WorkflowInstance, workflow_transitions, workflow_common, contains,
}

-- findStateById
unfoldable pub find_state_by_id : List State → String → Option State
find_state_by_id ss id = first (λ s. get_id s == id) ss

pub record TransitionScope : Type 0 where
  pub transitions : List Transition
  pub source_id : String

unfoldable pub inner_scope : Option State → Option CompositeState → List TransitionScope
inner_scope (some sub) (some comp) =
    record { transitions = sub_transitions comp; source_id = get_id sub } ∷ []
inner_scope _ _ = []

-- transitionScopes: the composite's sub-transitions, then the top-level ones.
unfoldable pub transition_scopes : WorkflowInstance → List TransitionScope
unfolding inner_scope
transition_scopes wf =
    inner_scope wf.current_state.substate (as_composite wf.current_state.state)
    ++ record {
      transitions = workflow_transitions wf.workflow_definition;
      source_id = get_id wf.current_state.state;
    }
      ∷ []

-- The loop over the scopes with an early return.
unfoldable pub search_scopes :
    (TransitionScope → Option Transition) → List TransitionScope → Option Transition
search_scopes find [] = none
search_scopes find (sc ∷ scs) = elim (find sc) [ none ↦ search_scopes find scs | some t ↦ some t ]

-- The Transition that matchCommonTransition builds; the fields that it leaves out are zero.
unfoldable pub synthesize : String → CommonTransition → Transition
synthesize source (common_transition c entry) =
    transition
      record {
        trigger = c.trigger;
        kind = c.kind;
        source = source;
        target = c.target;
        event = c.event;
        guard = c.guard;
        join = false;
        after = "";
        enters_history = false;
      }
      entry nil_targets

module _ {F : Type 0} (floats : Floats F) where
  abbrev pub passes : StrMap → Transition → Bool
  passes context t = evaluate floats (fields t).guard context

  -- The tests of the loop of matchIn.
  unfoldable pub matches : String → String → StrMap → Transition → Bool
  matches source event context t =
      (fields t).source == source && (fields t).event == event && passes context t

  unfoldable pub match_in : List Transition → String → String → StrMap → Option Transition
  unfolding matches
  match_in ts source event context = first (matches source event context) ts

  unfoldable pub matches_common : String → String → StrMap → CommonTransition → Bool
  matches_common source event context c =
      (common_fields c).event == event
      && contains source (common_fields c).source_list
      && evaluate floats (common_fields c).guard context

  unfoldable pub match_common_transition :
      List CommonTransition → String → String → StrMap → Option Transition
  unfolding matches_common synthesize
  match_common_transition cs source event context =
      elim (first (matches_common source event context) cs) [
        | none ↦ none
        | some c ↦ some (synthesize source c)
      ]

  -- findCandidateTransition
  unfoldable pub find_candidate_transition : WorkflowInstance → String → StrMap → Option Transition
  unfolding search_scopes match_in match_common_transition
  find_candidate_transition wf event context =
      elim (search_scopes (λ sc. match_in sc.transitions sc.source_id event context)
        (transition_scopes wf)) [
          | some t ↦ some t
          | none ↦
              match_common_transition (workflow_common wf.workflow_definition)
                (get_id wf.current_state.state) event context
        ]

  unfoldable pub matches_automatic : String → StrMap → Transition → Bool
  matches_automatic source context t =
      (fields t).source == source
      && is_automatic (fields t).trigger
      && (fields t).after == ""
      && passes context t

  unfoldable pub match_automatic_in : List Transition → String → StrMap → Option Transition
  unfolding matches_automatic
  match_automatic_in ts source context = first (matches_automatic source context) ts

  -- findAutomaticTransition
  unfoldable pub find_automatic_transition : WorkflowInstance → StrMap → Option Transition
  unfolding search_scopes match_automatic_in
  find_automatic_transition wf context =
      search_scopes (λ sc. match_automatic_in sc.transitions sc.source_id context)
        (transition_scopes wf)

  unfoldable pub matches_deferred : String → StrMap → Transition → Bool
  matches_deferred source context t =
      (fields t).source == source
      && is_automatic (fields t).trigger
      && not ((fields t).after == "")
      && passes context t

  unfoldable pub match_deferred_in : List Transition → String → StrMap → List Transition
  unfolding matches_deferred
  match_deferred_in ts source context = select (matches_deferred source context) ts

  -- The loop of findDeferredTransitions.
  unfoldable pub deferred_in_scopes : List TransitionScope → StrMap → List Transition
  unfolding match_deferred_in
  deferred_in_scopes [] context = []
  deferred_in_scopes (sc ∷ scs) context =
      match_deferred_in sc.transitions sc.source_id context ++ deferred_in_scopes scs context

  unfoldable pub find_deferred_transitions : WorkflowInstance → StrMap → List Transition
  unfolding deferred_in_scopes
  find_deferred_transitions wf context = deferred_in_scopes (transition_scopes wf) context

  -- The tests of `collect` in possibleEventsFor.
  unfoldable pub matches_manual : String → StrMap → Transition → Bool
  matches_manual source context t =
      (fields t).source == source && not (is_automatic (fields t).trigger) && passes context t

  unfoldable pub collect : List Transition → String → StrMap → List String
  unfolding matches_manual
  collect ts source context =
      map (λ t. (fields t).event) (select (matches_manual source context) ts)

  inner_events : Option State → Option CompositeState → StrMap → List String
  unfolding collect
  inner_events (some sub) (some comp) context = collect (sub_transitions comp) (get_id sub) context
  inner_events _ _ context = []

  unfoldable pub matches_manual_common : String → StrMap → CommonTransition → Bool
  matches_manual_common source context c =
      not (is_automatic (common_fields c).trigger)
      && evaluate floats (common_fields c).guard context
      && contains source (common_fields c).source_list

  unfoldable pub common_events : List CommonTransition → String → StrMap → List String
  unfolding matches_manual_common
  common_events cs source context =
      map (λ c. (common_fields c).event) (select (matches_manual_common source context) cs)

  -- possibleEventsFor
  unfoldable pub possible_events_for : WorkflowInstance → StrMap → List String
  unfolding inner_events collect common_events
  possible_events_for wf context =
      inner_events wf.current_state.substate (as_composite wf.current_state.state) context
      ++ collect (workflow_transitions wf.workflow_definition) (get_id wf.current_state.state)
          context
      ++ common_events (workflow_common wf.workflow_definition) (get_id wf.current_state.state)
          context

-- findPendingJoinTransition; no guard is read here.
unfoldable pub find_pending_join_transition : WorkflowInstance → Option Transition
unfolding search_scopes is_join
find_pending_join_transition wf =
    search_scopes (λ sc. first (λ t. (fields t).source == sc.source_id && is_join t) sc.transitions)
      (transition_scopes wf)
