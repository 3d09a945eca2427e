-- ===== src/Engine/AutoJoin/Stored.antt =====
-- The attempt of an auto-join, on a database all of whose rows are well formed.
use brokr.Common.{String, Option, none, some}
use brokr.Model.Guard.{evaluate}
use brokr.Model.Transition.{fields}
use brokr.Model.Workflow.{Transition}
use brokr.Engine.Instance.{WorkflowInstance}
use brokr.Engine.Effects.{Host, Process}
use brokr.Engine.Effects.Keeps.{Keeps, Keeps-bind, Keeps-if, Keeps-pure}
use brokr.Engine.Event.Stored.{complete-Keeps}
use brokr.Engine.Storage.{Storage, AllWellFormed}
use brokr.Engine.Storage.Kept.{tried}
use brokr.Engine.AutoJoin.{dispatch_async, absorb, join_pending, attempt_auto_join}

module _ {F X : Type 0} {host : Host F X} (storage : Storage host) where
  abbrev WellFormed : Process X → Type 0
  WellFormed = AllWellFormed storage

  dispatch-Keeps : (id event : String) → Keeps WellFormed (dispatch_async id event)
  unfolding dispatch_async
  dispatch-Keeps id event = record { at = λ p h. h }

  pending-Keeps :
      (id : String) (parent : WorkflowInstance) (found : Option Transition)
      → Keeps WellFormed (join_pending host id parent found)
  unfolding join_pending
  pending-Keeps id parent none = Keeps-pure tt
  pending-Keeps id parent (some t) =
      Keeps-if (evaluate host.floats (fields t).guard parent.context_map) _ _
        (Keeps-bind _ _ (complete-Keeps storage id parent.pending_fork_generation)
          λ complete. Keeps-if complete _ _ (dispatch-Keeps id (fields t).event) (Keeps-pure tt))
        (Keeps-pure tt)

  pub attempt_auto_join-Keeps : (id : String) → Keeps WellFormed (attempt_auto_join host id)
  unfolding attempt_auto_join absorb
  attempt_auto_join-Keeps id = record {
    at =
        (Keeps-bind _ _ (tried storage _ (storage.first_instance id))
          λ parent. pending-Keeps id parent _).at;
  }
