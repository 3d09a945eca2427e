-- ===== src/Tests/Events.antt =====
-- Events of the order workflow, and the theorems on them.
use brokr.Engine.Children.{create_child_workflow_instance, all_children_complete}
use brokr.Model.Guard.{evaluate}
use brokr.Model.Transition.{is_join}
use brokr.Engine.Position.{resolve_target}
use brokr.Engine.Actions.{execute_http_request_action, execute, execute_actions}
use mathlib.Core.List.{Memᴰ}
use brokr.Common.{select, first, ℕ, ◌==◌, true, false, none, some, [], ◌∷◌, ◌≡◌, refl}
use brokr.Model.Kinds.{
  is_create_child, is_automatic, is_fork, is_internal, TriggerType, TransitionKind,
}
use brokr.Model.Workflow.{simple}
use brokr.Model.Transition.{fields}
use brokr.Engine.Instance.{
  is_end_state, effective_state, effective_id, WorkflowInstance, JourneyEntry,
}
use brokr.Engine.Instance.WellFormed.{IsWellFormed}
use brokr.Engine.Match.{
  find_automatic_transition, transition_scopes, find_state_by_id, find_candidate_transition,
}
use brokr.Engine.Activities.{
  start_timers, start_do_activity, arm_state_activities, stop_timers, stop_do_activity, pending,
}
use brokr.Engine.Transition.{describe, local_substate, apply_transition}
use brokr.Engine.Transition.Invariant.{Stepped, apply_transition-Stepped}
use brokr.Engine.Chain.{max_automatic_hops, run_automatic_chain}
use brokr.Engine.Chain.Settled.{Settled, run_automatic_chain-Settled}
use brokr.Engine.Effects.{raise, try, ask, lift, pure, ◌>>=◌, Host, ok, err, Process, http_failed}
use brokr.Engine.Event.{Outcome, transact, process_event}
use brokr.Engine.Event.Recorded.{IsWritten}
use brokr.Engine.Event.Saved.{Saved, transact-Saved}
use brokr.Engine.Event.Gate.{cohort}
use brokr.Engine.Event.Joined.{process_event_joins}
use brokr.Engine.Event.Heard.{Heard}
use brokr.Engine.Event.Silent.{Announced, process_event_silent, process_event_announces}
use brokr.Engine.Event.Disarmed.{process_event_disarms}
use brokr.Tests.Fixture.{Database, desk, named, pay, refund, gather, entered, instance_a, process}

-- A host whose generator never hands out "a".
abbrev lab : Host ℕ Database
lab = record desk { new_uuid = λ d. ("c", d) }

a-IsWellFormed : IsWellFormed instance_a
a-IsWellFormed = record {
  positioned = record { state_known = Memᴰ.head refl; substate_known = tt };
  trailed = (refl, refl, (refl, refl));
}

abbrev stepped : JourneyEntry
stepped = record entered {
  timestamp = 1;
  event = "pay";
  trigger = TriggerType.user;
  kind = TransitionKind.external;
  from_state = "created";
  to_state = "paid";
}

-- `a` after it was paid.
abbrev paid_a : WorkflowInstance
paid_a = record instance_a {
  current_state = record { state = simple (named "paid"); substate = none };
  last_transition = "Event: pay, From: created, To: paid";
  journey = entered ∷ stepped ∷ [];
}

paying : (apply_transition desk "a" instance_a pay [] process).0 ≡ ok (paid_a, [], true)
unfolding apply_transition is_internal ◌>>=◌ stop_do_activity stop_timers pure local_substate
    execute_actions lift resolve_target find_state_by_id first is_fork is_join ask describe
    effective_id
paying = refl

pay_ends : (process_event desk "a" "pay" process).0 ≡ ok "shipped"
unfolding process_event ◌>>=◌ try first find_candidate_transition transition_scopes evaluate is_join
    pure apply_transition is_internal stop_do_activity stop_timers local_substate execute_actions
    resolve_target find_state_by_id arm_state_activities start_do_activity start_timers
    create_child_workflow_instance ask effective_state is_end_state is_automatic is_fork
    run_automatic_chain find_automatic_transition
pay_ends = refl

refund_fails : (process_event desk "a" "refund" process).0 ≡ err (http_failed "GET" "http://down")
unfolding process_event ◌>>=◌ try first find_candidate_transition transition_scopes evaluate is_join
    pure apply_transition is_internal stop_do_activity stop_timers local_substate execute_actions
    lift resolve_target find_state_by_id execute execute_http_request_action ask raise
    is_create_child is_fork
refund_fails = refl

abbrev shipping : JourneyEntry
shipping = record entered {
  timestamp = 1;
  event = "ship";
  trigger = TriggerType.automatic;
  kind = TransitionKind.external;
  from_state = "paid";
  to_state = "shipped";
}

-- `a` after the completion that ships it.
abbrev shipped_a : WorkflowInstance
shipped_a = record paid_a {
  current_state = record { state = simple (named "shipped"); substate = none };
  last_transition = "Event: ship, From: paid, To: shipped";
  journey = entered ∷ stepped ∷ shipping ∷ [];
}

paid_a-IsWellFormed : IsWellFormed paid_a
paid_a-IsWellFormed = record {
  positioned = record { state_known = Memᴰ.tail (Memᴰ.head refl); substate_known = tt };
  trailed = (refl, refl, (refl, refl, (refl, refl)));
}

chaining : (run_automatic_chain desk "a" paid_a [] process).0 ≡ ok (shipped_a, [], true)
unfolding run_automatic_chain find_automatic_transition transition_scopes first is_automatic
    evaluate ◌>>=◌ apply_transition is_internal stop_do_activity stop_timers pure local_substate
    execute_actions lift resolve_target find_state_by_id is_fork ask is_join describe effective_id
chaining = refl

-- What `pay` saves; the clock shows 1 for the first step and 2 for the second.
abbrev paid_and_shipped : Outcome
paid_and_shipped = record {
  row = record shipped_a {
    journey = entered ∷ stepped ∷ record shipping { timestamp = 2 } ∷ [];
    version = 1;
    complete = true;
  };
  moved = true;
  just_completed = true;
}

transacting : (transact desk "a" "pay" process).0 ≡ ok paid_and_shipped
unfolding transact ◌>>=◌ try first find_candidate_transition transition_scopes evaluate is_join pure
    apply_transition is_internal stop_do_activity stop_timers local_substate execute_actions lift
    resolve_target find_state_by_id ask is_end_state is_automatic is_fork run_automatic_chain
    find_automatic_transition describe effective_id
transacting = refl

lab_fails : (process_event lab "a" "refund" process).0 ≡ err (http_failed "GET" "http://down")
unfolding process_event ◌>>=◌ try first find_candidate_transition transition_scopes evaluate is_join
    pure apply_transition is_internal stop_do_activity stop_timers local_substate execute_actions
    lift resolve_target find_state_by_id execute execute_http_request_action ask raise
    is_create_child is_fork
lab_fails = refl

read_a : lab.first_instance "a" process.world ≡ (ok instance_a, process.world)
unfolding first
read_a = refl

read_desk : desk.first_instance "a" process.world ≡ (ok instance_a, process.world)
unfolding first
read_desk = refl

gather_found : find_candidate_transition desk.floats instance_a "gather" [] ≡ some gather
unfolding find_candidate_transition transition_scopes first evaluate
gather_found = refl

refund_found : find_candidate_transition lab.floats instance_a "refund" [] ≡ some refund
unfolding find_candidate_transition transition_scopes first evaluate
refund_found = refl

-- The process without the child.
abbrev childless : Process Database
childless = record process { world = record process.world { rows = instance_a ∷ [] } }

read_childless : desk.first_instance "a" childless.world ≡ (ok instance_a, childless.world)
unfolding first
read_childless = refl

gather_ends : (process_event desk "a" "gather" childless).0 ≡ ok "shipped"
unfolding process_event ◌>>=◌ try first find_candidate_transition transition_scopes evaluate is_join
    pure apply_transition is_internal stop_do_activity stop_timers local_substate execute_actions
    resolve_target find_state_by_id arm_state_activities start_do_activity start_timers
    create_child_workflow_instance ask effective_state is_end_state is_automatic is_fork
    run_automatic_chain find_automatic_transition select all_children_complete
gather_ends = refl

gather_joins : is_join gather ≡ true
unfolding is_join
gather_joins = refl

refund_leaves : is_join refund ≡ false
unfolding is_join
refund_leaves = refl

refund_external : is_internal (fields refund).kind ≡ false
unfolding is_internal
refund_external = refl

c_fresh : (x : Database) → ((lab.new_uuid x).0 == "a") ≡ false
c_fresh x = refl

-- The theorems.
apply_transition-Stepped_example : Stepped instance_a paid_a
apply_transition-Stepped_example =
    apply_transition-Stepped desk "a" instance_a pay [] process a-IsWellFormed paying

run_automatic_chain-Settled_example : Settled desk max_automatic_hops paid_a (shipped_a, [], true)
run_automatic_chain-Settled_example =
    run_automatic_chain-Settled desk "a" paid_a [] process paid_a-IsWellFormed chaining

transact-Saved_example :
    IsWritten desk paid_and_shipped.row (transact desk "a" "pay" process).1.world
    × Saved desk instance_a paid_and_shipped
unfolding first
transact-Saved_example = transact-Saved desk "a" "pay" process refl a-IsWellFormed transacting

process_event_joins_example :
    (desk.count_incomplete "a" (cohort instance_a) childless.world).0 ≡ ok 0
process_event_joins_example =
    process_event_joins desk "a" "gather" childless "shipped" gather read_childless gather_found
      gather_joins gather_ends

process_event_silent_example : Heard [] [] [] (process_event desk "a" "refund" process).1
process_event_silent_example =
    process_event_silent desk "a" "refund" process (http_failed "GET" "http://down") refund_fails

process_event_announces_example :
    Announced desk "a" "pay" process (process_event desk "a" "pay" process).1 "shipped"
process_event_announces_example = process_event_announces desk "a" "pay" process "shipped" pay_ends

process_event_disarms_example : pending "a" (process_event lab "a" "refund" process).1 ≡ []
process_event_disarms_example =
    process_event_disarms lab "a" c_fresh "refund" process refund (http_failed "GET" "http://down")
      refl read_a refund_found refund_external refund_leaves lab_fails
