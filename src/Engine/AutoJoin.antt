-- ===== src/Engine/AutoJoin.antt =====
-- engine/autojoin.go: the join of a parent whose child has completed.
pub mod Attempts
pub mod Stored
use brokr.Common.{String, Bool, true, false, Option, none, some, List, [], ◌∷◌, if◌then◌else◌}
use brokr.Model.Guard.{evaluate}
use brokr.Model.Transition.{fields}
use brokr.Model.Workflow.{Transition}
use brokr.Engine.Instance.{WorkflowInstance}
use brokr.Engine.Match.{find_pending_join_transition}
use brokr.Engine.Children.{all_children_complete}
use brokr.Engine.Effects.{Host, Result, ok, err, Process, Exec, pure, try, modify, ◌>>=◌}

-- DispatchAsync: the command is put into the mailbox of the instance; its context is never done.
unfoldable pub dispatch_async : {X : Type 0} → String → String → Exec X (Unit {0})
unfolding modify
dispatch_async id event = modify (λ p. record p { dispatched = (id, event) ∷ p.dispatched })

-- A goroutine whose errors are logged and returned to nobody.
unfoldable pub absorb : {X : Type 0} → Exec X (Unit {0}) → Exec X (Unit {0})
absorb m p = (ok tt, (m p).1)

module _ {F X : Type 0} (host : Host F X) where
  unfoldable pub join_pending : String → WorkflowInstance → Option Transition → Exec X (Unit {0})
  unfolding dispatch_async
  join_pending id parent none = pure tt
  join_pending id parent (some t) =
      if evaluate host.floats (fields t).guard parent.context_map
      then (do
        complete ← all_children_complete host id parent.pending_fork_generation
        if complete then dispatch_async id (fields t).event else pure tt)
      else pure tt

  -- attemptAutoJoin
  unfoldable pub attempt_auto_join : String → Exec X (Unit {0})
  unfolding absorb join_pending
  attempt_auto_join id = absorb do
    parent ← try (host.first_instance id)
    join_pending id parent (find_pending_join_transition parent)
