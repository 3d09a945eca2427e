-- ===== src/Engine/Event/Stored.antt =====
-- The events and the creation of an instance, on a database all of whose rows are well formed.
use brokr.Common.{String, Bool, true, false, Option, none, some, [], StrMap, ◌≡◌}
use brokr.Model.Transition.{is_join}
use brokr.Model.Workflow.{Workflow, Transition}
use brokr.Engine.Instance.{WorkflowInstance, workflow_states}
use brokr.Engine.Instance.WellFormed.{IsWellFormed}
use brokr.Engine.Position.{resolve_initial_position}
use brokr.Engine.Activities.Kept.{stop_timers-Keeps, stop_do_activity-Keeps}
use brokr.Engine.Children.{first_state, all_children_complete}
use brokr.Engine.Children.Fresh.{new_row-IsWellFormed}
use brokr.Engine.Transition.{apply_transition}
use brokr.Engine.Transition.Invariant.{Stepped, apply-Returns}
use brokr.Engine.Transition.Kept.{apply_transition-Keeps}
use brokr.Engine.Chain.{max_automatic_hops, run_automatic_chain}
use brokr.Engine.Chain.Settled.{Settled, chain-Returns}
use brokr.Engine.Chain.Kept.{run_automatic_chain-Keeps}
use brokr.Engine.Effects.{Host, Result, ok, err, Process, Exec}
use brokr.Engine.Effects.Returns.{Returns-lift, Returns-weaken}
use brokr.Engine.Effects.Keeps.{
  Keeps, Keeps-bind, Keeps-bind_returned, Keeps-bind_known, Keeps-if, Keeps-lift, Keeps-pure,
  Keeps-raise,
}
use brokr.Engine.Storage.{Storage, AllWellFormed}
use brokr.Engine.Storage.Kept.{
  asked, tried, read_known, written, armed, WellFormed-IsBackground, WellFormed-KeptByCalls,
  create_child-Keeps,
}
use brokr.Engine.Event.{
  Outcome, settle, fire, take_transition, check_children, transact, transaction, close,
  publish_transition, spawn_auto_join, after_commit, process_event, new_workflow_instance,
}

module _ {F X : Type 0} {host : Host F X} (storage : Storage host) where
  abbrev WellFormed : Process X → Type 0
  WellFormed = AllWellFormed storage

  apply-Keeps :
      (id : String) (wf : WorkflowInstance) (t : Transition) (context : StrMap)
      → Keeps WellFormed (apply_transition host id wf t context)
  apply-Keeps id wf t context =
      apply_transition-Keeps host (WellFormed-KeptByCalls storage) (create_child-Keeps storage) id
        wf t context (stop_do_activity-Keeps (WellFormed-IsBackground storage) id)
        (stop_timers-Keeps (WellFormed-IsBackground storage) id)

  chain-Keeps :
      (id : String) (wf : WorkflowInstance) (context : StrMap)
      → Keeps WellFormed (run_automatic_chain host id wf context)
  chain-Keeps id = run_automatic_chain-Keeps host id (apply-Keeps id)

  take-Keeps :
      (id : String) (wf : WorkflowInstance) (t : Transition)
      → IsWellFormed wf
      → Keeps WellFormed (take_transition host id wf t)
  unfolding take_transition settle
  take-Keeps id wf t h =
      Keeps-bind_returned (λ r. Stepped wf r.0) _ _ (apply-Keeps id wf t wf.context_map)
        (apply-Returns host id wf t wf.context_map h)
        λ applied s.
          Keeps-bind_returned (Settled host max_automatic_hops applied.0) _ _
            (chain-Keeps id applied.0 applied.1)
            (chain-Returns host id applied.0 applied.1 s.well_formed)
            λ chained c.
              Keeps-bind _ _
                (written storage _ _ (storage.save_instance _) (record {
                  positioned = c.well_formed.positioned;
                  trailed = c.well_formed.trailed;
                }))
                λ saved. Keeps-pure _

  pub complete-Keeps :
      (id generation : String) → Keeps WellFormed (all_children_complete host id generation)
  unfolding all_children_complete
  complete-Keeps id generation =
      Keeps-bind _ _ (tried storage _ (storage.count_incomplete id _)) λ n. Keeps-pure _

  check-Keeps :
      (id event : String) (wf : WorkflowInstance)
      → Keeps WellFormed (check_children host id event wf)
  unfolding check_children
  check-Keeps id event wf =
      Keeps-bind _ _ (complete-Keeps id wf.pending_fork_generation)
        λ complete. Keeps-if complete _ _ (Keeps-pure tt) (Keeps-raise _)

  fire-Keeps :
      (id event : String) (wf : WorkflowInstance) (found : Option Transition)
      → IsWellFormed wf
      → Keeps WellFormed (fire host id event wf found)
  unfolding fire
  fire-Keeps id event wf none h = Keeps-raise _
  fire-Keeps id event wf (some t) h =
      Keeps-bind _ _ (Keeps-if (is_join t) _ _ (check-Keeps id event wf) (Keeps-pure tt))
        λ gate. take-Keeps id wf t h

  transact-Keeps : (id event : String) → Keeps WellFormed (transact host id event)
  unfolding transact
  transact-Keeps id event =
      Keeps-bind_known IsWellFormed _ _
        (read_known storage _ (storage.first_instance id) (storage.read id))
        λ wf good. fire-Keeps id event wf _ good

  close-Keeps : (r : Result Outcome) → Keeps WellFormed (close host r)
  unfolding close
  close-Keeps (ok o) = Keeps-bind _ _ (tried storage _ storage.commit) λ u. Keeps-pure o
  close-Keeps (err e) = Keeps-bind _ _ (asked storage _ storage.rollback) λ u. Keeps-raise e

  transaction-Keeps :
      (body : Exec X Outcome) → Keeps WellFormed body → Keeps WellFormed (transaction host body)
  unfolding transaction
  transaction-Keeps body kept =
      Keeps-bind _ _ (tried storage _ storage.begin)
        λ u. Keeps-bind _ _ (record { at = kept.at }) close-Keeps

  publish-Keeps :
      (id event : String) (wf : WorkflowInstance)
      → Keeps WellFormed (publish_transition id event wf)
  unfolding publish_transition
  publish-Keeps id event wf = record { at = λ p h. h }

  spawn-Keeps :
      (done : Bool) (parent : Option String) → Keeps WellFormed (spawn_auto_join done parent)
  unfolding spawn_auto_join
  spawn-Keeps true (some parent) = record { at = λ p h. h }
  spawn-Keeps true none = record { at = λ p h. h }
  spawn-Keeps false parent = record { at = λ p h. h }

  after_commit-Keeps :
      (id event : String) (o : Outcome) → Keeps WellFormed (after_commit host id event o)
  unfolding after_commit
  after_commit-Keeps id event o =
      Keeps-bind _ _ (Keeps-if o.moved _ _ (armed storage id _ _) (Keeps-pure tt)) λ started.
        Keeps-bind _ _ (publish-Keeps id event o.row)
          λ published. spawn-Keeps o.just_completed o.row.parent_id

  pub process_event-Keeps : (id event : String) → Keeps WellFormed (process_event host id event)
  unfolding process_event
  process_event-Keeps id event =
      Keeps-bind _ _ (transaction-Keeps _ (transact-Keeps id event))
        λ o. Keeps-bind _ _ (after_commit-Keeps id event o) λ told. Keeps-pure _

  pub new_workflow_instance-Keeps :
      (def : Workflow) → Keeps WellFormed (new_workflow_instance host def)
  unfolding new_workflow_instance
  new_workflow_instance-Keeps def = Keeps-bind _ _ (asked storage _ storage.new_uuid) λ id.
      Keeps-bind_returned (λ first. first_state (workflow_states def) ≡ ok first) _ _ (Keeps-lift _)
        (Returns-lift _ (λ a e. e))
        λ first known.
          Keeps-bind_returned (λ r. resolve_initial_position first ≡ ok r) _ _ (Keeps-lift _)
            (Returns-lift _ (λ a e. e))
            λ r position. Keeps-bind _ _ (asked storage _ storage.now) λ time.
              Keeps-bind_returned (λ c. IsWellFormed c.0) _ _ (chain-Keeps id _ [])
                (Returns-weaken
                  (chain-Returns host id _ []
                    (new_row-IsWellFormed id none "" def time known position))
                  λ c s. s.well_formed)
                λ c good.
                  Keeps-bind _ _
                    (written storage _ _ (storage.create_instance _)
                      (record { positioned = good.positioned; trailed = good.trailed }))
                    λ created. Keeps-bind _ _ (armed storage id _ _) (λ started. Keeps-pure id)
