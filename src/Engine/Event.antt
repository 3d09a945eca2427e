-- ===== src/Engine/Event.antt =====
-- engine/workflow_ops.go, engine/eventbus.go and engine/autojoin.go: one event for one instance, from
-- the transaction to what follows its commit.
pub mod Recorded
pub mod Saved
pub mod Heard
pub mod Silent
pub mod Gate
pub mod Joined
pub mod Disarmed
pub mod Stored
use brokr.Common.{
  ℕ, suc, ◌+◌, ◌%◌, ◌^◌, String, Bool, true, false, not, ◌&&◌, ◌||◌, Option, none, some, List, [],
  ◌∷◌, StrMap, if◌then◌else◌,
}
use brokr.Model.State.{get_id}
use brokr.Model.Guard.{evaluate}
use brokr.Model.Transition.{fields, is_join}
use brokr.Model.Workflow.{Workflow, Transition}
use brokr.Engine.Instance.{WorkflowInstance, StateContainer, is_end_state, workflow_states}
use brokr.Engine.Match.{find_candidate_transition, find_pending_join_transition}
use brokr.Engine.Position.{resolve_initial_position}
use brokr.Engine.Activities.{arm_state_activities}
use brokr.Engine.Children.{all_children_complete, first_state, new_row}
use brokr.Engine.Transition.{apply_transition}
use brokr.Engine.Chain.{run_automatic_chain}
use brokr.Engine.Effects.{
  Host, Error, no_transition, children_not_complete, Result, ok, err, WorkflowTransitionEvent,
  Process, Exec, pure, raise, lift, ask, try, modify, ◌>>=◌, ◌>>◌,
}

-- What processEvent keeps of its transaction: the row that was saved, whether the instance moved, and
-- whether it has just completed.
pub record Outcome : Type 0 where
  pub row : WorkflowInstance
  pub moved : Bool
  pub just_completed : Bool

-- wf.Version++ on a 64-bit int
unfoldable pub bump : ℕ → ℕ
bump version = (version + 1) % 2 ^ 64

unfoldable pub settle : WorkflowInstance → StrMap → WorkflowInstance
unfolding bump
settle wf context = record wf {
  context_map = context;
  complete = is_end_state wf.workflow_definition (some wf.current_state.state);
  version = bump wf.version;
}

-- publishTransition
unfoldable pub publish_transition :
    {X : Type 0} → String → String → WorkflowInstance → Exec X (Unit {0})
unfolding modify
publish_transition id event wf =
    let published_event : WorkflowTransitionEvent = record {
      workflow_instance_id = id;
      event = event;
      last_transition = wf.last_transition;
      current_state = wf.current_state.state;
      substate = wf.current_state.substate;
    } in
    modify (λ p. record p { published = published_event ∷ p.published })

-- go attemptAutoJoin(wf.ParentId.String())
spawn_auto_join : {X : Type 0} → Bool → Option String → Exec X (Unit {0})
unfolding modify
spawn_auto_join true (some parent) = modify (λ p. record p { auto_joins = parent ∷ p.auto_joins })
spawn_auto_join _ _ = modify (λ p. p)

module _ {F X : Type 0} (host : Host F X) where
  -- The gate of a join.
  check_children : String → String → WorkflowInstance → Exec X (Unit {0})
  check_children id event wf = do
    complete ← all_children_complete host id wf.pending_fork_generation
    if complete
        then pure tt
        else raise (children_not_complete (get_id wf.current_state.state) event)

  -- The transition, the completions that follow it, and the write of the row.
  take_transition : String → WorkflowInstance → Transition → Exec X Outcome
  unfolding settle
  take_transition id wf t = do
    (applied, context₁, apply_moved) ← apply_transition host id wf t wf.context_map
    (chained, context₂, chain_moved) ← run_automatic_chain host id applied context₁
    let row = settle chained context₂
    let outcome : Outcome = record {
      row = row;
      moved = apply_moved || chain_moved;
      just_completed = not wf.complete && row.complete;
    }
    try (host.save_instance row)
    pure outcome

  pub fire : String → String → WorkflowInstance → Option Transition → Exec X Outcome
  unfolding check_children take_transition
  fire id event wf none = raise (no_transition (get_id wf.current_state.state) event)
  fire id event wf (some t) = do
    if is_join t then check_children id event wf else pure tt
    take_transition id wf t

  -- The function that Transaction runs.
  unfoldable pub transact : String → String → Exec X Outcome
  unfolding fire
  transact id event = do
    wf ← try (host.first_instance id)
    fire id event wf (find_candidate_transition host.floats wf event wf.context_map)

  close : Result Outcome → Exec X Outcome
  close (ok outcome) = do try host.commit; pure outcome
  close (err e) = do ask (λ x. (tt, host.rollback x)); raise e

  -- db.Transaction
  unfoldable pub transaction : Exec X Outcome → Exec X Outcome
  unfolding close
  transaction body = do
    try host.begin
    result ← (λ p. let (r, p') = body p in (ok r, p'))
    close result

  -- The deferred function, for err == nil.
  unfoldable pub after_commit : String → String → Outcome → Exec X (Unit {0})
  unfolding publish_transition spawn_auto_join
  after_commit id event outcome = do
    if outcome.moved
        then arm_state_activities host id outcome.row outcome.row.context_map
        else pure tt
    publish_transition id event outcome.row
    spawn_auto_join outcome.just_completed outcome.row.parent_id

  -- processEvent
  unfoldable pub process_event : String → String → Exec X String
  unfolding transaction transact after_commit
  process_event id event = do
    outcome ← transaction (transact id event)
    after_commit id event outcome
    pure (get_id outcome.row.current_state.state)

  -- NewWorkflowInstance
  unfoldable pub new_workflow_instance : Workflow → Exec X String
  unfolding lift first_state new_row
  new_workflow_instance def = do
    id ← ask host.new_uuid
    first ← lift (first_state (workflow_states def))
    (s, sub) ← lift (resolve_initial_position first)
    time ← ask host.now
    (chained, context, _) ← run_automatic_chain host id (new_row id none "" def s sub time) []
    let row = record chained {
      context_map = context;
      complete = is_end_state chained.workflow_definition (some chained.current_state.state);
    }
    try (host.create_instance row)
    arm_state_activities host id row context
    pure id
