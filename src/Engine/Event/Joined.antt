-- ===== src/Engine/Event/Joined.antt =====
-- An event of processEvent that takes a join.
use brokr.Common.{String, true, some, ◌≡◌}
use brokr.Model.Transition.{is_join}
use brokr.Model.Workflow.{Transition}
use brokr.Engine.Instance.{WorkflowInstance}
use brokr.Engine.Match.{find_candidate_transition}
use brokr.Engine.Effects.{Host, ok, Process}
use brokr.Engine.Event.{transact, process_event}
use brokr.Engine.Event.Gate.{cohort, transact_joined}
use brokr.Engine.Event.Recorded.{transaction_ok}
use brokr.Engine.Event.Silent.{committed_outcome}

module _ {F X : Type 0} (host : Host F X) (id event : String) where
  -- Where the transition that answers to the event is a join, the event succeeds only if, in the
  -- transaction, the count of the children of the pending generation (of all children, where no
  -- generation is pending) that are not complete came to none: a count that fails, or that finds a
  -- child, makes the whole event fail.
  pub process_event_joins :
      (p : Process X) (s : String) {wf : WorkflowInstance} (t : Transition) {x : X}
      → host.first_instance id (host.begin p.world).1 ≡ (ok wf, x)
      → find_candidate_transition host.floats wf event wf.context_map ≡ some t
      → is_join t ≡ true
      → (process_event host id event p).0 ≡ ok s
      → (host.count_incomplete id (cohort wf) x).0 ≡ ok 0
  process_event_joins p s t read found join done =
      let (o, ended) = committed_outcome host id event p s done in
      let (begin, ran, commit) = transaction_ok host (transact host id event) p o ended in
      transact_joined host id event (record p { world = (host.begin p.world).1 }) read t found join
        ran
