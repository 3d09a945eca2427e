-- ===== src/Model/Defaults.antt =====
-- model/defaults.go: the defaults of a definition that is registered under a name. Every nested
-- definition reads the clock for itself, in the order of the loops.
pub mod Idempotent
use brokr.Common.{String, Bool, true, false, ◌==◌, Option, none, some, if◌then◌else◌}
use brokr.Model.Kinds.{TriggerType, WorkflowKind, TransitionKind, ActionType}
use brokr.Model.State.{get_id}
use brokr.Model.Workflow.{
  StateFields, TransitionFields, CommonFields, ActionFields, WorkflowFields, Workflow, workflow,
  WorkflowRef, null, ref, State, simple, action_state, composite, States, nil, cons, CompositeState,
  composite_state, Transition, transition, Transitions, nil_transitions, cons_transitions,
  CommonTransition, common_transition, CommonTransitions, nil_common, cons_common, Action, action,
  Actions, nil_actions, cons_actions, ForkTarget, fork_target, ForkTargets, nil_targets,
  cons_targets,
}

-- if s == "" { s = value }
unfoldable pub fill : String → String → String
fill s value = if s == "" then value else s

unfoldable pub fill_trigger : TriggerType → TriggerType
fill_trigger TriggerType.unset = TriggerType.user
fill_trigger t = t

unfoldable pub fill_kind : TransitionKind → TransitionKind
fill_kind TransitionKind.unset = TransitionKind.external
fill_kind k = k

unfoldable pub fill_method : ActionType → String → String
unfolding fill
fill_method ActionType.http_request method = fill method "GET"
fill_method _ method = method

-- if s == "" && len(states) > 0 { s = states[0].GetId() }
unfoldable pub fill_first : String → States → String
unfolding fill
fill_first s nil = s
fill_first s (cons first ss) = fill s (get_id first)

-- The fields that the three cases of applyStateDefaults fill alike.
unfoldable pub fill_state : String → StateFields → StateFields
unfolding fill
fill_state type f = record f {
  type = fill f.type type;
  status = fill f.status "NEW";
  product_status = fill f.product_status "IN_PROGRESS";
  bullet_name = fill f.bullet_name f.id;
}

unfoldable pub fill_transition : TransitionFields → TransitionFields
unfolding fill_trigger fill_kind
fill_transition f = record f { trigger = fill_trigger f.trigger; kind = fill_kind f.kind }

unfoldable pub fill_common : CommonFields → CommonFields
unfolding fill_trigger fill_kind
fill_common f = record f { trigger = fill_trigger f.trigger; kind = fill_kind f.kind }

unfoldable pub fill_action : ActionFields → ActionFields
unfolding fill_method
fill_action f = record f { method = fill_method f.type f.method }

unfoldable pub fill_workflow : String → States → WorkflowFields → WorkflowFields
unfolding fill fill_first
fill_workflow now ss f = record f {
  kind = WorkflowKind.user;
  version = fill f.version "1.0.0";
  creation_date = fill f.creation_date now;
  update_date = fill f.update_date now;
  initial_state = fill_first f.initial_state ss;
}

-- The clock `C`, and time.Now().UTC().Format(time.RFC3339).
module _ {C : Type 0} (tick : C → String × C) where
  unfoldable mutual
    -- ApplyDefaults
    pub apply_defaults : Workflow → C → Workflow × C
    apply_defaults (workflow f ss ts cs) c =
        let (now, c₀) = tick c in
        let (ss', c₁) = apply_states ss c₀ in
        let (ts', c₂) = apply_transitions ts c₁ in
        let (cs', c₃) = apply_commons cs c₂ in (workflow (fill_workflow now ss f) ss' ts' cs', c₃)

    -- a pointer that may be nil
    pub apply_ref : WorkflowRef → C → WorkflowRef × C
    apply_ref null c = (null, c)
    apply_ref (ref def) c = let (def', c₁) = apply_defaults def c in (ref def', c₁)

    pub apply_state_defaults : State → C → State × C
    apply_state_defaults (simple f) c = (simple (fill_state "SimpleState" f), c)
    apply_state_defaults (action_state f expect entry exit activity) c =
        let (entry', c₁) = apply_actions entry c in
        let (exit', c₂) = apply_actions exit c₁ in
        let (activity', c₃) = apply_actions activity c₂ in
        (action_state (fill_state "ActionState" f) expect entry' exit' activity', c₃)
    apply_state_defaults (composite s) c = let (s', c₁) = apply_composite s c in (composite s', c₁)

    pub apply_composite : CompositeState → C → CompositeState × C
    apply_composite (composite_state f entry exit initial subs ts h) c =
        let (entry', c₁) = apply_actions entry c in
        let (exit', c₂) = apply_actions exit c₁ in
        let (subs', c₃) = apply_states subs c₂ in
        let (ts', c₄) = apply_transitions ts c₃ in
        (
          composite_state (fill_state "CompositeState" f) entry' exit' (fill_first initial subs)
              subs' ts' h,
          c₄,
        )

    pub apply_states : States → C → States × C
    apply_states nil c = (nil, c)
    apply_states (cons s ss) c =
        let (s', c₁) = apply_state_defaults s c in
        let (ss', c₂) = apply_states ss c₁ in (cons s' ss', c₂)

    pub apply_transition_defaults : Transition → C → Transition × C
    apply_transition_defaults (transition f entry forks) c =
        let (entry', c₁) = apply_actions entry c in
        let (forks', c₂) = apply_targets forks c₁ in
        (transition (fill_transition f) entry' forks', c₂)

    pub apply_transitions : Transitions → C → Transitions × C
    apply_transitions nil_transitions c = (nil_transitions, c)
    apply_transitions (cons_transitions t ts) c =
        let (t', c₁) = apply_transition_defaults t c in
        let (ts', c₂) = apply_transitions ts c₁ in (cons_transitions t' ts', c₂)

    pub apply_common_defaults : CommonTransition → C → CommonTransition × C
    apply_common_defaults (common_transition f entry) c =
        let (entry', c₁) = apply_actions entry c in (common_transition (fill_common f) entry', c₁)

    pub apply_commons : CommonTransitions → C → CommonTransitions × C
    apply_commons nil_common c = (nil_common, c)
    apply_commons (cons_common t ts) c =
        let (t', c₁) = apply_common_defaults t c in
        let (ts', c₂) = apply_commons ts c₁ in (cons_common t' ts', c₂)

    pub apply_action_defaults : Action → C → Action × C
    apply_action_defaults (action f child) c =
        let (child', c₁) = apply_ref child c in (action (fill_action f) child', c₁)

    pub apply_actions : Actions → C → Actions × C
    apply_actions nil_actions c = (nil_actions, c)
    apply_actions (cons_actions a as') c =
        let (a', c₁) = apply_action_defaults a c in
        let (as'', c₂) = apply_actions as' c₁ in (cons_actions a' as'', c₂)

    pub apply_target_defaults : ForkTarget → C → ForkTarget × C
    apply_target_defaults (fork_target name child) c =
        let (child', c₁) = apply_ref child c in (fork_target name child', c₁)

    pub apply_targets : ForkTargets → C → ForkTargets × C
    apply_targets nil_targets c = (nil_targets, c)
    apply_targets (cons_targets t ts) c =
        let (t', c₁) = apply_target_defaults t c in
        let (ts', c₂) = apply_targets ts c₁ in (cons_targets t' ts', c₂)
