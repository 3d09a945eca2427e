-- ===== src/Tests/Fixture.antt =====
-- A host whose database is a list of rows, and small workflows.
use brokr.Common.{
  lookup, insert, Entries, ltb, ℕ, ◌+◌, String, Bool, true, false, not, ◌==◌, ◌&&◌, Option, none,
  some, List, [], ◌∷◌, length, select, first, if◌then◌else◌,
}
use brokr.Model.Kinds.{TriggerType, TransitionKind, WorkflowKind, ActionType}
use brokr.Model.Guard.{Floats}
use brokr.Model.Workflow.{
  StateFields, TransitionFields, WorkflowFields, ActionFields, Workflow, workflow, simple, nil,
  cons, Transition, transition, nil_transitions, cons_transitions, nil_common, nil_actions,
  nil_targets, cons_actions, action, null,
}
use brokr.Engine.Instance.{WorkflowInstance, JourneyEntry}
use brokr.Engine.Effects.{Host, Result, ok, err, outside, Process, failed}

pub record Database : Type 0 where
  pub rows : List WorkflowInstance
  pub clock : ℕ
  pub ids : List String
  pub definitions : Entries Workflow

abbrev pub digits : Floats ℕ
digits = record {
  parse_float = λ s. if s == "1" then some 1 else if s == "2" then some 2 else none;
  greater = λ a b. ltb b a;
  greater_eq = λ a b. not (ltb a b);
  less = λ a b. ltb a b;
  less_eq = λ a b. not (ltb b a);
}

abbrev pub found : Option WorkflowInstance → Result WorkflowInstance
found none = err (outside "record not found")
found (some wf) = ok wf

abbrev pub same_parent : Option String → String → Bool
same_parent none id = false
same_parent (some parent) id = parent == id

abbrev in_generation : Option String → String → Bool
in_generation none generation = true
in_generation (some g) generation = g == generation

abbrev pub replace : WorkflowInstance → List WorkflowInstance → List WorkflowInstance
replace row [] = []
replace row (r ∷ rs) = (if r.id == row.id then row else r) ∷ replace row rs

abbrev next_id : List String → String
next_id [] = "no-id"
next_id (i ∷ is) = i

abbrev other_ids : List String → List String
other_ids [] = []
other_ids (i ∷ is) = is

abbrev pub desk : Host ℕ Database
desk = record {
  floats = digits;
  now = λ d. (d.clock, record d { clock = d.clock + 1 });
  new_uuid = λ d. (next_id d.ids, record d { ids = other_ids d.ids });
  range = λ m d. (m, d);
  send_http = λ request d. (failed, d);
  parse_duration = λ s. if s == "15m" then some 900 else none;
  parse_uuid = λ s. ok s;
  first_instance = λ id d. (found (first (λ r. r.id == id && not r.deleted) d.rows), d);
  create_instance = λ row d. (ok tt, record d { rows = row ∷ d.rows });
  count_incomplete = λ id generation d. (
    ok (
        length (
          select
            (λ r.
              same_parent r.parent_id id
              && not r.complete
              && in_generation generation r.fork_generation)
            d.rows)),
    d,
  );
  find_children =
      λ id d. (ok (select (λ r. same_parent r.parent_id id && not r.deleted) d.rows), d);
  first_child = λ id parent d. (
    found (first (λ r. r.id == id && same_parent r.parent_id parent && not r.deleted) d.rows),
    d,
  );
  delete_instance =
      λ row d. (ok tt, record d { rows = replace (record row { deleted = true }) d.rows });
  first_definition = λ name d. (ok (lookup name d.definitions), d);
  upsert_definition =
      λ name def d. (ok tt, record d { definitions = insert name def d.definitions });
  begin = λ d. (ok tt, d);
  save_instance = λ row d. (ok tt, record d { rows = replace row d.rows });
  commit = λ d. (ok tt, d);
  rollback = λ d. d;
}

abbrev pub named : String → StateFields
named id = record {
  type = "SimpleState";
  id = id;
  frontend_bullet = false;
  bullet_name = id;
  resume_event = "";
  product_status = "IN_PROGRESS";
  status = "NEW";
  is_happy_flow = none;
}

abbrev pub arrow : String → String → String → TransitionFields
arrow source event target = record {
  trigger = TriggerType.user;
  kind = TransitionKind.external;
  source = source;
  target = target;
  event = event;
  guard = none;
  join = false;
  after = "";
  enters_history = false;
}

abbrev pub order : WorkflowFields
order = record {
  id = "order";
  kind = WorkflowKind.user;
  version = "1.0.0";
  deprecated = false;
  creation_date = "";
  update_date = "";
  initial_state = "created";
  end_states = "shipped" ∷ [];
}

-- created -pay-> paid -AUTOMATIC-> shipped, with an action that fails on `refund`, and a timeout.
abbrev pub pay : Transition
pay = transition (arrow "created" "pay" "paid") nil_actions nil_targets

abbrev pub ship : Transition
ship =
    transition (record (arrow "paid" "ship" "shipped") { trigger = TriggerType.automatic })
      nil_actions nil_targets

abbrev pub expire : Transition
expire =
    transition
      (record (arrow "created" "timeout" "shipped") {
        trigger = TriggerType.automatic;
        after = "15m";
      })
      nil_actions nil_targets

abbrev call : ActionFields
call = record {
  type = ActionType.http_request;
  method = "GET";
  url = "http://down";
  expect_response = true;
  forward_token = false;
  status = "";
  variables = [];
}

abbrev pub refund : Transition
refund =
    transition (arrow "created" "refund" "paid") (cons_actions (action call null) nil_actions)
      nil_targets

-- a join that waits for the children
abbrev pub gather : Transition
gather =
    transition (record (arrow "created" "gather" "paid") { kind = TransitionKind.join }) nil_actions
      nil_targets

abbrev pub shop : Workflow
shop =
    workflow order
      (cons (simple (named "created"))
        (cons (simple (named "paid")) (cons (simple (named "shipped")) nil)))
      (cons_transitions pay (
        cons_transitions ship (
          cons_transitions expire
            (cons_transitions refund (cons_transitions gather nil_transitions)))))
      nil_common

abbrev pub entered : JourneyEntry
entered = record {
  timestamp = 0;
  event = "";
  trigger = TriggerType.unset;
  kind = TransitionKind.unset;
  from_state = "";
  from_substate = "";
  to_state = "created";
  to_substate = "";
}

abbrev pub instance_a : WorkflowInstance
instance_a = record {
  id = "a";
  parent_id = none;
  workflow_definition = shop;
  current_state = record { state = simple (named "created"); substate = none };
  last_transition = "";
  context_map = [];
  composite_history = [];
  journey = entered ∷ [];
  version = 0;
  complete = false;
  fork_generation = "";
  pending_fork_generation = "";
  deleted = false;
}

-- A child of `a` that has not completed.
abbrev pub child_b : WorkflowInstance
child_b = record instance_a { id = "b"; parent_id = some "a" }

abbrev pub process : Process Database
process = record {
  world = record { rows = instance_a ∷ child_b ∷ []; clock = 1; ids = []; definitions = [] };
  timers = ("a", record { delay = 900; event = "timeout" } ∷ []) ∷ [];
  do_activities = [];
  jobs = [];
  published = [];
  auto_joins = [];
  dispatched = [];
  hooks_wired = true;
}
