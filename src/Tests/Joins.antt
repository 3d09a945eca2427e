-- ===== src/Tests/Joins.antt =====
-- Forks, joins and new rows at concrete inputs.
use brokr.Engine.Actions.{execute_actions}
use brokr.Engine.Activities.{stop_timers, stop_do_activity}
use brokr.Model.Composite.{find_substate}
use brokr.Common.{select, first, true, false, some, [], ◌∷◌, ◌&&◌, if◌then◌else◌, ◌≡◌, refl}
use brokr.Model.Kinds.{TransitionKind, no_history, is_internal}
use brokr.Model.Guard.{evaluate}
use brokr.Model.Transition.{fields}
use brokr.Model.Workflow.{
  State, simple, composite, composite_state, cons, nil, Workflow, workflow, Transition, transition,
  cons_transitions, nil_transitions, nil_common, nil_actions, nil_targets,
}
use brokr.Engine.Instance.{effective_id, WorkflowInstance}
use brokr.Engine.Match.{transition_scopes, find_candidate_transition, find_pending_join_transition}
use brokr.Engine.Children.{is_zero}
use brokr.Engine.Effects.{ask, pure, ◌>>=◌, Process, ok}
use brokr.Engine.Event.Gate.{cohort}
use brokr.Engine.Transition.{describe, local_substate, apply_transition}
use brokr.Engine.Transition.Local.{Shifted, apply_transition-Shifted}
use brokr.Engine.AutoJoin.{attempt_auto_join}
use brokr.Engine.AutoJoin.Attempts.{attempt_auto_join_dispatches}
use brokr.Tests.Fixture.{Database, desk, order, named, arrow, gather, entered, instance_a, process}

-- The process without the child.
abbrev alone : Process Database
alone = record process { world = record process.world { rows = instance_a ∷ [] } }

gather_pends : find_pending_join_transition instance_a ≡ some gather
unfolding find_pending_join_transition transition_scopes first
gather_pends = refl

read_alone : desk.first_instance "a" alone.world ≡ (ok instance_a, alone.world)
unfolding find_candidate_transition first
read_alone = refl

none_waits : desk.count_incomplete "a" (cohort instance_a) alone.world ≡ (ok 0, alone.world)
unfolding find_candidate_transition select
none_waits = refl

attempt_auto_join_dispatches_example : attempt_auto_join desk "a" alone ≡ (
    let passes = evaluate desk.floats (fields gather).guard [] in
    (
      ok tt,
      record alone {
        world = if passes then alone.world else alone.world;
        dispatched = if passes && is_zero 0 then ("a", "gather") ∷ [] else [];
      },
    ))
attempt_auto_join_dispatches_example =
    attempt_auto_join_dispatches desk "a" alone gather read_alone gather_pends none_waits

-- A composite with two substates, and a fork from one to the other.
abbrev prep : State
prep = simple (named "prep")

abbrev bake : State
bake = simple (named "bake")

abbrev split : Transition
split =
    transition (record (arrow "prep" "split" "bake") { kind = TransitionKind.fork }) nil_actions
      nil_targets

abbrev kitchen : State
kitchen = composite (
    composite_state (named "kitchen") nil_actions nil_actions "prep" (cons prep (cons bake nil))
      (cons_transitions split nil_transitions) no_history)

abbrev restaurant : Workflow
restaurant = workflow order (cons kitchen nil) nil_transitions nil_common

abbrev cooking : WorkflowInstance
cooking = record instance_a {
  workflow_definition = restaurant;
  current_state = record { state = kitchen; substate = some prep };
}

abbrev baking : WorkflowInstance
baking = record cooking {
  current_state = record { state = kitchen; substate = some bake };
  last_transition = "Event: split, From: prep, To: bake";
  journey =
      entered
      ∷ record entered {
        timestamp = 1;
        event = "split";
        trigger = (fields split).trigger;
        kind = TransitionKind.fork;
        from_state = "kitchen";
        from_substate = "prep";
        to_state = "kitchen";
        to_substate = "bake";
      }
      ∷ [];
}

bake_is_local : local_substate cooking.current_state split ≡ some bake
unfolding local_substate find_substate first
bake_is_local = refl

split_external : is_internal (fields split).kind ≡ false
unfolding is_internal
split_external = refl

splitting : (apply_transition desk "a" cooking split [] process).0 ≡ ok (baking, [], true)
unfolding apply_transition is_internal ◌>>=◌ stop_do_activity stop_timers execute_actions pure
    local_substate find_substate first ask describe effective_id
splitting = refl

apply_transition-Shifted_example : Shifted cooking bake baking
apply_transition-Shifted_example =
    apply_transition-Shifted desk "a" cooking split bake [] process split_external bake_is_local
      splitting
