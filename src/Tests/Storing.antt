-- ===== src/Tests/Storing.antt =====
-- The fixture's desk as a database that holds its list of rows, and the invariant of its rows.
use mathlib.Core.List.{Memᴰ}
use brokr.Common.{
  Bool, true, Bool-cases, List, [], ◌∷◌, ◌≡◌, ◌≢◌, ◌⊎◌, inl, inr, refl, ◌==◌, first, subst, sym,
  ◌&&◌, not, lookup, arith,
}
use brokr.Engine.Instance.{WorkflowInstance}
use brokr.Engine.Instance.WellFormed.{IsWellFormed}
use brokr.Engine.Effects.{ok, Process}
use brokr.Engine.Effects.Returns.{ok-injective}
use brokr.Engine.Event.{process_event}
use brokr.Engine.Storage.{Storage, AllWellFormed}
use brokr.Engine.Dispatcher.{
  Dispatcher, Command, new_dispatcher, accept, deliver, take, compute, accept_at, put, Step,
}
use brokr.Engine.Dispatcher.Eviction.{stop_activities}
use brokr.Web.System.{SystemRun, dispatches, handles, begins, goes_on, SystemRun-AllWellFormed}
use brokr.Web.{Request, Endpoint, serve}
use brokr.Tests.Fixture.{Database, desk, process, found, replace, same_parent, instance_a, child_b}
use brokr.Tests.Requests.{service, paid}

module _ (test : WorkflowInstance → Bool) where
  found-Memᴰ :
      (rows : List WorkflowInstance) (row : WorkflowInstance)
      → found (first test rows) ≡ ok row
      → Memᴰ row rows
  unfolding first
  found-Memᴰ [] row h = cc
  found-Memᴰ (r ∷ rs) row h = elim (Bool-cases (test r)) [
    | inl e ↦ Memᴰ.head (sym (ok-injective (rw e at h)))
    | inr e ↦ Memᴰ.tail (found-Memᴰ rs row (rw e at h))
  ]

replaced :
    (new : WorkflowInstance) (rows : List WorkflowInstance) (row : WorkflowInstance)
    → Memᴰ row (replace new rows)
    → Memᴰ row rows ⊎ (row ≡ new)
replaced new [] row m = inl m
replaced new (r ∷ rs) row (Memᴰ.head e) = elim (Bool-cases (r.id == new.id)) [
  | inl same ↦ inr (rw same at e)
  | inr other ↦ inl (Memᴰ.head (rw other at e))
]
replaced new (r ∷ rs) row (Memᴰ.tail m) = elim (replaced new rs row m) [
  | inl before ↦ inl (Memᴰ.tail before)
  | inr e ↦ inr e
]

created :
    (new : WorkflowInstance) (rows : List WorkflowInstance) (row : WorkflowInstance)
    → Memᴰ row (new ∷ rows)
    → Memᴰ row rows ⊎ (row ≡ new)
created new rows row (Memᴰ.head e) = inr e
created new rows row (Memᴰ.tail m) = inl m

abbrev rows_of_desk : Storage desk
rows_of_desk = record {
  held = λ d row. Memᴰ row d.rows;
  read = λ id d row h. found-Memᴰ (λ r. r.id == id && not r.deleted) d.rows row h;
  read_child = λ id parent d row h.
      found-Memᴰ (λ r. r.id == id && same_parent r.parent_id parent && not r.deleted) d.rows row h;
  create_instance = λ new d row m. created new d.rows row m;
  save_instance = λ new d row m. replaced new d.rows row m;
  delete_instance = λ old d row m. replaced (record old { deleted = true }) d.rows row m;
  now = λ d row m. m;
  new_uuid = λ d row m. m;
  range = λ m d row h. h;
  send_http = λ request d row m. m;
  first_instance = λ id d row m. m;
  count_incomplete = λ id generation d row m. m;
  find_children = λ id d row m. m;
  first_child = λ id parent d row m. m;
  first_definition = λ name d row m. m;
  begin = λ d row m. m;
  commit = λ d row m. m;
  rollback = λ d row m. m;
}

instance_a-IsWellFormed : IsWellFormed instance_a
instance_a-IsWellFormed = record {
  positioned = record { state_known = Memᴰ.head refl; substate_known = tt };
  trailed = (refl, refl, (refl, refl));
}

child_b-IsWellFormed : IsWellFormed child_b
child_b-IsWellFormed = record {
  positioned = instance_a-IsWellFormed.positioned;
  trailed = instance_a-IsWellFormed.trailed;
}

process-AllWellFormed : AllWellFormed rows_of_desk process
process-AllWellFormed row (Memᴰ.head e) = subst IsWellFormed (sym e) instance_a-IsWellFormed
process-AllWellFormed row (Memᴰ.tail (Memᴰ.head e)) =
    subst IsWellFormed (sym e) child_b-IsWellFormed
process-AllWellFormed row (Memᴰ.tail (Memᴰ.tail m)) = elim m [ ]

abbrev pay_command : Command
pay_command = record { event = "pay"; waits = true }

abbrev pay_sent : Dispatcher (Process Database)
pay_sent = deliver 0 pay_command [] (accept "a" pay_command (new_dispatcher process))

abbrev pay_taken : Dispatcher (Process Database)
pay_taken = take 0 pay_command [] pay_sent

abbrev pay_processed : Dispatcher (Process Database)
pay_processed = compute (process_event desk) stop_activities 0 pay_command pay_taken

-- `pay` is sent to the instance and processed, and a client reads the children before the reply.
abbrev children_read : Request
children_read = record paid { event = "" }

abbrev observed : Dispatcher (Process Database)
observed = record pay_processed {
  engine = (serve desk service Endpoint.children_listed children_read pay_processed.engine).1;
}

no_event : Endpoint.children_listed ≢ Endpoint.event_sent
no_event = λ e. cc

observed_reached : SystemRun desk service process observed
unfolding accept accept_at put deliver take lookup
observed_reached =
    goes_on
      (goes_on
        (goes_on
          (goes_on (goes_on begins (dispatches (Step.enqueue "a" pay_command)))
            (dispatches (Step.send 0 pay_command [] [] refl (omega arith))))
          (dispatches (Step.receive 0 pay_command [] refl refl refl)))
        (dispatches (Step.process 0 pay_command refl refl)))
      (handles Endpoint.children_listed children_read no_event)

SystemRun-AllWellFormed_example : AllWellFormed rows_of_desk observed.engine
SystemRun-AllWellFormed_example =
    SystemRun-AllWellFormed rows_of_desk observed_reached process-AllWellFormed
