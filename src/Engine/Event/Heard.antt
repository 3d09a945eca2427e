-- ===== src/Engine/Event/Heard.antt =====
-- What the rest of the process hears of is kept by everything that a transaction runs.
use brokr.Common.{String, Option, none, some, List, StrMap, ◌≡◌}
use brokr.Model.Workflow.{Workflow, Transition}
use brokr.Engine.Instance.{WorkflowInstance}
use brokr.Engine.Activities.Kept.{
  IsBackground, arm-Keeps, stop_timers-Keeps, stop_do_activity-Keeps,
}
use brokr.Engine.Children.{create_child_workflow_instance, all_children_complete}
use brokr.Engine.Children.Kept.{create_child-Keeps}
use brokr.Engine.Effects.{Host, Result, ok, err, Process, Exec, WorkflowTransitionEvent}
use brokr.Engine.Effects.Returns.{Returns-any}
use brokr.Engine.Effects.Keeps.{
  Keeps, IsLocal, IsLocal-KeptByCalls, keeps_rules, Keeps-bind, Keeps-pure, Keeps-try,
}
use brokr.Engine.Transition.{apply_transition}
use brokr.Engine.Transition.Kept.{apply_transition-Keeps}
use brokr.Engine.Chain.{run_automatic_chain}
use brokr.Engine.Chain.Kept.{run_automatic_chain-Keeps}
use brokr.Engine.Event.{
  Outcome, transact, transaction, fire, take_transition, check_children, close,
}

-- What other parts of the process hear of.
abbrev pub Heard :
    {X : Type 0}
    → List WorkflowTransitionEvent
    → List String
    → List (String × String)
    → Process X
    → Type 0
Heard events joins commands p =
    (p.published ≡ events) × (p.auto_joins ≡ joins) × (p.dispatched ≡ commands)

module _ {F X : Type 0} (host : Host F X) (events : List WorkflowTransitionEvent)
    (joins : List String) (commands : List (String × String)) where
  abbrev pub Same : Process X → Type 0
  Same = Heard events joins commands

  Same-IsLocal : IsLocal Same
  Same-IsLocal = record { world = λ p x h. h; jobs = λ p js h. h }

  pub Same-IsBackground : IsBackground Same
  Same-IsBackground = record { timers = λ p ts h. h; do_activities = λ p as' h. h }

  child-Same :
      (parent_id : String) (def : Workflow) (generation : String)
      → Keeps Same (create_child_workflow_instance host parent_id def generation)
  child-Same =
      create_child-Keeps host (λ _. Unit) Same-IsLocal (Returns-any _ (λ id. tt))
        (λ id wf context _. arm-Keeps host Same-IsBackground id wf context)

  apply-Same :
      (id : String) (wf : WorkflowInstance) (t : Transition) (context : StrMap)
      → Keeps Same (apply_transition host id wf t context)
  apply-Same id wf t context =
      apply_transition-Keeps host (IsLocal-KeptByCalls host Same-IsLocal) child-Same id wf t context
        (stop_do_activity-Keeps Same-IsBackground id) (stop_timers-Keeps Same-IsBackground id)

  chain-Same :
      (id : String) (wf : WorkflowInstance) (context : StrMap)
      → Keeps Same (run_automatic_chain host id wf context)
  chain-Same id = run_automatic_chain-Keeps host id (apply-Same id)

  fire-Same :
      (id event : String) (wf : WorkflowInstance) (found : Option Transition)
      → Keeps Same (fire host id event wf found)
  unfolding fire take_transition check_children all_children_complete
  fire-Same id event wf none = search keeps_rules
  fire-Same id event wf (some t) =
      Keeps-bind _ _ (search (keeps_rules, Same-IsLocal) depth 7) λ gate.
        Keeps-bind _ _ (apply-Same id wf t _) λ applied.
          Keeps-bind _ _ (chain-Same id applied.0 applied.1)
            λ chained. Keeps-bind _ _ (Keeps-try _ Same-IsLocal) λ saved. Keeps-pure _

  pub transact-Same : (id event : String) → Keeps Same (transact host id event)
  unfolding transact
  transact-Same id event = Keeps-bind _ _ (Keeps-try _ Same-IsLocal) (λ wf. fire-Same id event wf _)

  close-Same : (r : Result Outcome) → Keeps Same (close host r)
  unfolding close
  close-Same (ok o) = search (keeps_rules, Same-IsLocal)
  close-Same (err e) = search (keeps_rules, Same-IsLocal)

  pub transaction-Same :
      (body : Exec X Outcome) → Keeps Same body → Keeps Same (transaction host body)
  unfolding transaction
  transaction-Same body h =
      Keeps-bind _ _ (Keeps-try _ Same-IsLocal)
        λ begun. Keeps-bind _ _ (record { at = h.at }) λ result. close-Same result
