-- ===== src/Engine/Transition/Kept.antt =====
-- What transitions leave alone in the process.
use brokr.Common.{String, false, List, [], ◌∷◌, StrMap, Option, none, some, ◌≡◌}
use brokr.Model.Kinds.{is_internal}
use brokr.Model.Transition.{fields}
use brokr.Model.Workflow.{Workflow, State, Transition, ForkTarget, Action}
use brokr.Engine.Instance.{WorkflowInstance, StateContainer}
use brokr.Engine.Children.{create_child_workflow_instance}
use brokr.Engine.Actions.{execute_actions}
use brokr.Engine.Actions.Kept.{batch-Keeps, execute_actions-Keeps}
use brokr.Engine.Activities.{stop_timers, stop_do_activity}
use brokr.Engine.Effects.{Host, Process, ◌>>=◌, continue}
use brokr.Engine.Effects.Keeps.{
  Keeps, KeptByCalls, keeps_rules, Keeps-bind, Keeps-if, Keeps-pure, Keeps-lift, Keeps-wrap_error,
}
use brokr.Engine.Transition.{
  exit_substate, enter_substate, leave, spawn_regions, fork_or_join, move, enter_state, finish,
  internal_transition, external_rest, external_transition, apply_transition,
}

module _ {F X : Type 0} (host : Host F X) {I : Process X → Type 0} (c : KeptByCalls host I)
    (child : (parent_id : String) (def : Workflow) (generation : String)
      → Keeps I (create_child_workflow_instance host parent_id def generation)) where
  actions-Keeps :
      (id : String) (context : StrMap) (as' : List Action)
      → Keeps I (execute_actions host id context as')
  actions-Keeps = execute_actions-Keeps host c child

  exit_substate-Keeps :
      (id : String) (sub : Option State) (context : StrMap)
      → Keeps I (exit_substate host id sub context)
  unfolding exit_substate
  exit_substate-Keeps id none context = Keeps-pure context
  exit_substate-Keeps id (some sub) context = actions-Keeps id context _

  enter_substate-Keeps :
      (id : String) (sub : Option State) (context : StrMap)
      → Keeps I (enter_substate host id sub context)
  unfolding enter_substate
  enter_substate-Keeps id none context = Keeps-pure context
  enter_substate-Keeps id (some sub) context = actions-Keeps id context _

  leave-Keeps :
      (id : String) (wf : WorkflowInstance) (local : Option State) (context : StrMap)
      → Keeps I (leave host id wf local context)
  unfolding leave
  leave-Keeps id wf none context = search (keeps_rules, actions-Keeps)
  leave-Keeps id wf (some sub) context = Keeps-pure _

  enter_state-Keeps :
      (id : String) (wf : WorkflowInstance) (local : Option State) (context : StrMap)
      → Keeps I (enter_state host id wf local context)
  unfolding enter_state
  enter_state-Keeps id wf none context = actions-Keeps id context _
  enter_state-Keeps id wf (some sub) context = Keeps-pure _

  spawn_regions-Keeps :
      (id : String) (wf : WorkflowInstance) (t : Transition) (forks : List ForkTarget)
      → Keeps I (spawn_regions host id wf t forks)
  unfolding spawn_regions
  spawn_regions-Keeps id wf t [] = search keeps_rules
  spawn_regions-Keeps id wf t (fork ∷ forks) = Keeps-bind _ _ c.new_uuid λ generation.
      Keeps-bind _ _ (Keeps-lift _) λ defs.
        Keeps-bind _ _ (Keeps-wrap_error _ _ (batch-Keeps host c child id defs generation))
          λ ids. Keeps-pure _

  fork_or_join-Keeps :
      (id : String) (wf : WorkflowInstance) (t : Transition) → Keeps I (fork_or_join host id wf t)
  unfolding fork_or_join
  fork_or_join-Keeps id wf t = search (keeps_rules, spawn_regions-Keeps)

  move-Keeps :
      (id : String) (wf : WorkflowInstance) (t : Transition) (local : Option State)
      → Keeps I (move host id wf t local)
  unfolding move
  move-Keeps id wf t none = search (keeps_rules, fork_or_join-Keeps)
  move-Keeps id wf t (some sub) = Keeps-pure _

  finish-Keeps :
      (id : String) (from : StateContainer) (wf : WorkflowInstance) (t : Transition)
      (context : StrMap)
      → Keeps I (finish host id from wf t context)
  unfolding finish
  finish-Keeps id from wf t context =
      Keeps-bind _ _ (actions-Keeps id context _)
        λ context'. Keeps-bind _ _ c.now λ time. Keeps-pure _

  pub internal-Keeps :
      (id : String) (wf : WorkflowInstance) (t : Transition) (context : StrMap)
      → Keeps I (internal_transition host id wf t context)
  unfolding internal_transition
  internal-Keeps id wf t context =
      Keeps-bind _ _ (actions-Keeps id context _)
        λ context'. Keeps-bind _ _ c.now λ time. Keeps-pure _

  -- All of an external transition behind the two stops.
  pub external_rest-Keeps :
      (id : String) (wf : WorkflowInstance) (t : Transition) (context : StrMap)
      → Keeps I (external_rest host id wf t context)
  unfolding external_rest
  external_rest-Keeps id wf t context =
      Keeps-bind _ _ (exit_substate-Keeps id _ context) λ context₁.
        Keeps-bind _ _ (leave-Keeps id wf _ context₁) λ left.
          Keeps-bind _ _ (move-Keeps id left.0 t _) λ moved.
            Keeps-bind _ _ (enter_state-Keeps id moved _ left.1) λ context₃.
              Keeps-bind _ _ (enter_substate-Keeps id _ context₃)
                λ context₄. finish-Keeps id wf.current_state moved t context₄

  -- A transition keeps what its actions and the two stops keep.
  pub apply_transition-Keeps :
      (id : String) (wf : WorkflowInstance) (t : Transition) (context : StrMap)
      → Keeps I (stop_do_activity {X = X} id)
      → Keeps I (stop_timers {X = X} id)
      → Keeps I (apply_transition host id wf t context)
  unfolding apply_transition external_transition
  apply_transition-Keeps id wf t context activity timers =
      Keeps-if (is_internal (fields t).kind) _ _ (internal-Keeps id wf t context) (
        Keeps-bind _ _ activity
          λ stopped. Keeps-bind _ _ timers λ stopped'. external_rest-Keeps id wf t context)

  -- A transition that is not internal keeps what holds after the two stops.
  pub apply_transition_ends :
      (id : String) (wf : WorkflowInstance) (t : Transition) (context : StrMap) (p : Process X)
      → is_internal (fields t).kind ≡ false
      → I (stop_timers id (stop_do_activity id p).1).1
      → I (apply_transition host id wf t context p).1
  unfolding apply_transition external_transition stop_timers stop_do_activity ◌>>=◌ continue
  apply_transition_ends id wf t context p external h =
      rw external ((external_rest-Keeps id wf t context).at _ h)
