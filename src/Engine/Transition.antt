-- ===== src/Engine/Transition.antt =====
-- engine/transitions.go: applyTransition, in the order of its steps.
pub mod Invariant
pub mod Kept
pub mod Local
use brokr.Common.{
  ℕ, zero, suc, String, Bool, true, false, not, ◌==◌, ◌<>◌, Option, none, some, List, [], ◌∷◌, ◌++◌,
  StrMap, insert, if◌then◌else◌,
}
use brokr.Model.Kinds.{is_internal, is_fork}
use brokr.Model.State
use brokr.Model.State.{get_id, as_composite}
use brokr.Model.Composite.{find_substate}
use brokr.Model.Transition.{fields, entry_actions, targets, is_join}
use brokr.Model.Workflow.{
  Workflow, State, CompositeState, Transition, ForkTarget, fork_target, null, ref, Action,
}
use brokr.Engine.Instance.{
  WorkflowInstance, StateContainer, JourneyEntry, substate_id, effective_id,
}
use brokr.Engine.Position.{resolve_target}
use brokr.Engine.Activities.{stop_timers, stop_do_activity}
use brokr.Engine.Children.{create_child_workflow_instances_batch}
use brokr.Engine.Actions.{execute_actions}
use brokr.Engine.Effects.{
  Host, Error, fork_targets_empty, fork_target_missing, fork_failed, Result, ok, err, Exec, pure,
  raise, lift, wrap_error, ask, ◌>>=◌, ◌>>◌,
}

-- comp.FindSubstate(t.Target), where the instance is inside the composite `comp`.
find_local : Option CompositeState → Option State → String → Option State
find_local (some comp) (some sub) target = find_substate comp target
find_local _ _ target = none

-- The substate that a local transition enters, if `t` is one.
unfoldable pub local_substate : StateContainer → Transition → Option State
unfolding find_local
local_substate c t = find_local (as_composite c.state) c.substate (fields t).target

abbrev pub journey_entry : Transition → StateContainer → StateContainer → ℕ → JourneyEntry
journey_entry t from to time = record {
  timestamp = time;
  event = (fields t).event;
  trigger = (fields t).trigger;
  kind = (fields t).kind;
  from_state = get_id from.state;
  from_substate = substate_id from.substate;
  to_state = get_id to.state;
  to_substate = substate_id to.substate;
}

-- "Event: %s, From: %s, To: %s"
unfoldable pub describe : String → String → String → String
describe event from to = "Event: " <> event <> ", From: " <> from <> ", To: " <> to

-- wf.CompositeHistory[state] = substate, on leaving a composite.
remember_in : Option State → WorkflowInstance → WorkflowInstance
remember_in none wf = wf
remember_in (some sub) wf = record wf {
  composite_history = insert (get_id wf.current_state.state) (get_id sub) wf.composite_history;
}

unfoldable pub remember : WorkflowInstance → WorkflowInstance
unfolding remember_in
remember wf = remember_in wf.current_state.substate wf

-- The definitions of the regions of a fork, from index `i` on.
fork_definitions : Transition → ℕ → List ForkTarget → Result (List Workflow)
fork_definitions t i [] = ok []
fork_definitions t i (fork_target name null ∷ rest) =
    err (fork_target_missing (fields t).source (fields t).target i)
fork_definitions t i (fork_target name (ref def) ∷ rest) = elim (fork_definitions t (suc i) rest) [
  | err e ↦ err e
  | ok defs ↦ ok (def ∷ defs)
]

module _ {F X : Type 0} (host : Host F X) where
  exit_substate : String → Option State → StrMap → Exec X StrMap
  exit_substate id none context = pure context
  exit_substate id (some sub) context = execute_actions host id context (State.exit_actions sub)

  enter_substate : String → Option State → StrMap → Exec X StrMap
  enter_substate id none context = pure context
  enter_substate id (some sub) context = execute_actions host id context (State.entry_actions sub)

  -- Leaving the top-level state, unless the transition is local.
  leave : String → WorkflowInstance → Option State → StrMap → Exec X (WorkflowInstance × StrMap)
  unfolding remember
  leave id wf (some _) context = pure (wf, context)
  leave id wf none context = do
    context' ← execute_actions host id context (State.exit_actions wf.current_state.state)
    pure (remember wf, context')

  -- The regions of a fork are spawned under a new generation, which the row remembers.
  spawn_regions : String → WorkflowInstance → Transition → List ForkTarget → Exec X WorkflowInstance
  unfolding fork_definitions wrap_error
  spawn_regions id wf t [] = raise (fork_targets_empty (fields t).source (fields t).target)
  spawn_regions id wf t (target ∷ rest) = do
    generation ← ask host.new_uuid
    defs ← lift (fork_definitions t 0 (target ∷ rest))
    wrap_error fork_failed (create_child_workflow_instances_batch host id defs generation)
    pure (record wf { pending_fork_generation = generation })

  fork_or_join : String → WorkflowInstance → Transition → Exec X WorkflowInstance
  unfolding spawn_regions
  fork_or_join id wf t =
      if is_fork (fields t).kind
      then spawn_regions id wf t (targets t)
      else if is_join t
      then pure (record wf { pending_fork_generation = "" })
      else pure wf

  -- The change of position; only a transition that is not local forks or joins.
  move : String → WorkflowInstance → Transition → Option State → Exec X WorkflowInstance
  unfolding fork_or_join
  move id wf t (some sub) =
      pure (record wf {
        current_state = record { state = wf.current_state.state; substate = some sub };
      })
  move id wf t none = do
    (s, sub) ← lift (resolve_target wf.workflow_definition t wf.composite_history)
    fork_or_join id (record wf { current_state = record { state = s; substate = sub } }) t

  enter_state : String → WorkflowInstance → Option State → StrMap → Exec X StrMap
  enter_state id wf (some _) context = pure context
  enter_state id wf none context =
      execute_actions host id context (State.entry_actions wf.current_state.state)

  -- The effect of the transition and its record in the row.
  finish :
      String
      → StateContainer
      → WorkflowInstance
      → Transition
      → StrMap
      → Exec X (WorkflowInstance × StrMap × Bool)
  finish id from wf t context = do
    context' ← execute_actions host id context (entry_actions t)
    time ← ask host.now
    let wf' = record wf {
      last_transition =
          describe (fields t).event (effective_id from) (effective_id wf.current_state);
      journey = wf.journey ++ journey_entry t from wf.current_state time ∷ [];
    }
    pure (wf', context', true)

  pub internal_transition :
      String → WorkflowInstance → Transition → StrMap → Exec X (WorkflowInstance × StrMap × Bool)
  internal_transition id wf t context = do
    context' ← execute_actions host id context (entry_actions t)
    time ← ask host.now
    let entry = journey_entry t wf.current_state wf.current_state time
    pure (record wf { journey = wf.journey ++ entry ∷ [] }, context', false)

  -- All of an external transition behind the two stops.
  pub external_rest :
      String → WorkflowInstance → Transition → StrMap → Exec X (WorkflowInstance × StrMap × Bool)
  unfolding exit_substate enter_substate leave move enter_state finish
  external_rest id wf t context = do
    let local = local_substate wf.current_state t
    context₁ ← exit_substate id wf.current_state.substate context
    (left, context₂) ← leave id wf local context₁
    moved ← move id left t local
    context₃ ← enter_state id moved local context₂
    context₄ ← enter_substate id moved.current_state.substate context₃
    finish id wf.current_state moved t context₄

  external_transition :
      String → WorkflowInstance → Transition → StrMap → Exec X (WorkflowInstance × StrMap × Bool)
  unfolding external_rest
  external_transition id wf t context = do
    stop_do_activity id
    stop_timers id
    external_rest id wf t context

  -- applyTransition: the new row, the new context, and whether the instance moved.
  unfoldable pub apply_transition :
      String → WorkflowInstance → Transition → StrMap → Exec X (WorkflowInstance × StrMap × Bool)
  unfolding internal_transition external_transition
  apply_transition id wf t context =
      if is_internal (fields t).kind
      then internal_transition id wf t context
      else external_transition id wf t context
