-- ===== src/Model/Defaults/Idempotent.antt =====
-- Applying the defaults again changes nothing.
use brokr.Common.{String, false, ◌==◌, ◌≡◌, refl, arith, ap, ap₂}
use brokr.Model.Kinds.{TriggerType, TransitionKind, ActionType}
use brokr.Model.State.{get_id}
use brokr.Model.Defaults.{
  fill, fill_trigger, fill_kind, fill_method, fill_first, fill_state, fill_transition, fill_common,
  fill_action, fill_workflow, apply_defaults, apply_ref, apply_state_defaults, apply_composite,
  apply_states, apply_transition_defaults, apply_transitions, apply_common_defaults, apply_commons,
  apply_action_defaults, apply_actions, apply_target_defaults, apply_targets,
}
use brokr.Model.Workflow.{
  StateFields, TransitionFields, CommonFields, ActionFields, WorkflowFields, Workflow, workflow,
  WorkflowRef, null, ref, State, simple, action_state, composite, States, nil, cons, CompositeState,
  composite_state, Transition, transition, Transitions, nil_transitions, cons_transitions,
  CommonTransition, common_transition, CommonTransitions, nil_common, cons_common, Action, action,
  Actions, nil_actions, cons_actions, ForkTarget, fork_target, ForkTargets, nil_targets,
  cons_targets,
}

fill_idem : (s value : String) → fill (fill s value) value ≡ fill s value
unfolding fill
fill_idem s value = ground arith

fill_again :
    (s value other : String) → (value == "") ≡ false → fill (fill s value) other ≡ fill s value
unfolding fill
fill_again s value other h = ground arith

fill_state_idem :
    (type : String) (f : StateFields) → fill_state type (fill_state type f) ≡ fill_state type f
unfolding fill_state
fill_state_idem type f = simp fill_idem

fill_trigger_idem : (t : TriggerType) → fill_trigger (fill_trigger t) ≡ fill_trigger t
unfolding fill_trigger
fill_trigger_idem t = ground arith

fill_kind_idem : (k : TransitionKind) → fill_kind (fill_kind k) ≡ fill_kind k
unfolding fill_kind
fill_kind_idem k = ground arith

fill_method_idem : (t : ActionType) (m : String) → fill_method t (fill_method t m) ≡ fill_method t m
unfolding fill_method
fill_method_idem t m = ground (arith, fill_idem m "GET")

fill_transition_idem :
    (f : TransitionFields) → fill_transition (fill_transition f) ≡ fill_transition f
unfolding fill_transition
fill_transition_idem f = simp (fill_trigger_idem, fill_kind_idem)

fill_common_idem : (f : CommonFields) → fill_common (fill_common f) ≡ fill_common f
unfolding fill_common
fill_common_idem f = simp (fill_trigger_idem, fill_kind_idem)

fill_action_idem : (f : ActionFields) → fill_action (fill_action f) ≡ fill_action f
unfolding fill_action
fill_action_idem f = simp fill_method_idem

module _ {C : Type 0} (tick : C → String × C) where
  get_id-apply : (s : State) (c : C) → get_id (apply_state_defaults tick s c).0 ≡ get_id s
  unfolding apply_defaults fill_state
  get_id-apply (simple f) c = refl
  get_id-apply (action_state f expect entry exit activity) c = refl
  get_id-apply (composite (composite_state f entry exit initial subs ts h)) c = refl

  first_again :
      (s : String) (ss : States) (c : C)
      → fill_first (fill_first s ss) (apply_states tick ss c).0 ≡ fill_first s ss
  unfolding fill_first apply_defaults
  first_again s nil c = refl
  first_again s (cons x ss) c = rw (get_id-apply x c) (fill_idem s (get_id x))

  module _ (dated : (c : C) → ((tick c).0 == "") ≡ false) where
    workflow_again :
        (c : C) (now : String) (ss : States) (c' : C) (f : WorkflowFields)
        → fill_workflow now (apply_states tick ss c').0 (fill_workflow (tick c).0 ss f)
          ≡ fill_workflow (tick c).0 ss f
    unfolding fill_workflow
    workflow_again c now ss c' f = simp (
      fill_idem f.version "1.0.0",
      fill_again f.creation_date (tick c).0 now (dated c),
      fill_again f.update_date (tick c).0 now (dated c),
      first_again f.initial_state ss c',
    )

    mutual
      unfolding apply_defaults

      defaults_idem :
          (w : Workflow) (c d : C)
          → (apply_defaults tick (apply_defaults tick w c).0 d).0 ≡ (apply_defaults tick w c).0
      defaults_idem (workflow f ss ts cs) c d =
          rw
            (
              workflow_again c (tick d).0 ss (tick c).1 f,
              states_idem ss _ _,
              transitions_idem ts _ _,
              commons_idem cs _ _,
            )
            refl

      ref_idem :
          (r : WorkflowRef) (c d : C)
          → (apply_ref tick (apply_ref tick r c).0 d).0 ≡ (apply_ref tick r c).0
      ref_idem null c d = refl
      ref_idem (ref def) c d = ap ref (defaults_idem def c d)

      state_idem :
          (s : State) (c d : C)
          → (apply_state_defaults tick (apply_state_defaults tick s c).0 d).0
            ≡ (apply_state_defaults tick s c).0
      state_idem (simple f) c d = ap simple (fill_state_idem "SimpleState" f)
      state_idem (action_state f expect entry exit activity) c d =
          rw
            (
              fill_state_idem "ActionState" f,
              actions_idem entry _ _,
              actions_idem exit _ _,
              actions_idem activity _ _,
            )
            refl
      state_idem (composite s) c d = ap composite (composite_idem s c d)

      composite_idem :
          (s : CompositeState) (c d : C)
          → (apply_composite tick (apply_composite tick s c).0 d).0 ≡ (apply_composite tick s c).0
      composite_idem (composite_state f entry exit initial subs ts h) c d =
          rw
            (
              fill_state_idem "CompositeState" f,
              actions_idem entry _ _,
              actions_idem exit _ _,
              first_again initial subs _,
              states_idem subs _ _,
              transitions_idem ts _ _,
            )
            refl

      states_idem :
          (ss : States) (c d : C)
          → (apply_states tick (apply_states tick ss c).0 d).0 ≡ (apply_states tick ss c).0
      states_idem nil c d = refl
      states_idem (cons s ss) c d = ap₂ cons (state_idem s _ _) (states_idem ss _ _)

      transition_idem :
          (t : Transition) (c d : C)
          → (apply_transition_defaults tick (apply_transition_defaults tick t c).0 d).0
            ≡ (apply_transition_defaults tick t c).0
      transition_idem (transition f entry forks) c d =
          rw (fill_transition_idem f, actions_idem entry _ _, targets_idem forks _ _) refl

      transitions_idem :
          (ts : Transitions) (c d : C)
          → (apply_transitions tick (apply_transitions tick ts c).0 d).0
            ≡ (apply_transitions tick ts c).0
      transitions_idem nil_transitions c d = refl
      transitions_idem (cons_transitions t ts) c d =
          ap₂ cons_transitions (transition_idem t _ _) (transitions_idem ts _ _)

      common_idem :
          (t : CommonTransition) (c d : C)
          → (apply_common_defaults tick (apply_common_defaults tick t c).0 d).0
            ≡ (apply_common_defaults tick t c).0
      common_idem (common_transition f entry) c d =
          ap₂ common_transition (fill_common_idem f) (actions_idem entry _ _)

      commons_idem :
          (ts : CommonTransitions) (c d : C)
          → (apply_commons tick (apply_commons tick ts c).0 d).0 ≡ (apply_commons tick ts c).0
      commons_idem nil_common c d = refl
      commons_idem (cons_common t ts) c d =
          ap₂ cons_common (common_idem t _ _) (commons_idem ts _ _)

      action_idem :
          (a : Action) (c d : C)
          → (apply_action_defaults tick (apply_action_defaults tick a c).0 d).0
            ≡ (apply_action_defaults tick a c).0
      action_idem (action f child) c d = ap₂ action (fill_action_idem f) (ref_idem child _ _)

      actions_idem :
          (as' : Actions) (c d : C)
          → (apply_actions tick (apply_actions tick as' c).0 d).0 ≡ (apply_actions tick as' c).0
      actions_idem nil_actions c d = refl
      actions_idem (cons_actions a as') c d =
          ap₂ cons_actions (action_idem a _ _) (actions_idem as' _ _)

      target_idem :
          (t : ForkTarget) (c d : C)
          → (apply_target_defaults tick (apply_target_defaults tick t c).0 d).0
            ≡ (apply_target_defaults tick t c).0
      target_idem (fork_target name child) c d = ap (fork_target name) (ref_idem child c d)

      targets_idem :
          (ts : ForkTargets) (c d : C)
          → (apply_targets tick (apply_targets tick ts c).0 d).0 ≡ (apply_targets tick ts c).0
      targets_idem nil_targets c d = refl
      targets_idem (cons_targets t ts) c d =
          ap₂ cons_targets (target_idem t _ _) (targets_idem ts _ _)

    -- The defaults are applied once and for all: applied again, at whatever time, they change nothing,
    -- provided that a time is never printed as the empty text.
    pub apply_defaults_idem :
        (w : Workflow) (c d : C)
        → (apply_defaults tick (apply_defaults tick w c).0 d).0 ≡ (apply_defaults tick w c).0
    apply_defaults_idem w c d = defaults_idem w c d
