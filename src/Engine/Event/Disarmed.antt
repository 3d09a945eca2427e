-- ===== src/Engine/Event/Disarmed.antt =====
-- What an event that fails does to the timers of its instance.
use text.Mathlib.TextPositions.{eq_refl}
use brokr.Common.{String, false, some, List, [], ◌∷◌, StrMap, ◌≡◌, subst, ◌∙◌, ◌==◌}
use brokr.Model.Kinds.{is_internal}
use brokr.Model.Transition.{fields, is_join}
use brokr.Model.Workflow.{Workflow, Transition, Action}
use brokr.Engine.Instance.{WorkflowInstance}
use brokr.Engine.Match.{find_candidate_transition}
use brokr.Engine.Activities.{
  pending, arm_state_activities, start_do_activity, stop_do_activity, stop_timers,
}
use brokr.Engine.Activities.Timers.{pending-stop_timers, pending-start_timers}
use brokr.Engine.Children.{create_child_workflow_instance}
use brokr.Engine.Children.Kept.{create_child-Keeps}
use brokr.Engine.Transition.{apply_transition}
use brokr.Engine.Transition.Kept.{apply_transition-Keeps, apply_transition_ends}
use brokr.Engine.Chain.Kept.{run_automatic_chain-Keeps}
use brokr.Engine.Effects.{Host, Error, Result, ok, err, Process, pure, ask, ◌>>=◌, continue}
use brokr.Engine.Effects.Returns.{Returns, ok-injective, bind_done, try_lem}
use brokr.Engine.Effects.Keeps.{
  Keeps, IsLocal, IsLocal-KeptByCalls, keeps_rules, Keeps-bind, Keeps-pure, Keeps-try, bind_ends,
}
use brokr.Engine.Event.Gate.{read_then}
use brokr.Engine.Event.Silent.{process_event_failed}
use brokr.Engine.Event.{Outcome, transaction, fire, take_transition, close, process_event}

module _ {F X : Type 0} (host : Host F X) (id : String)
    -- the generator does not hand out the id of the instance again
    (fresh : (x : X) → ((host.new_uuid x).0 == id) ≡ false) where
  abbrev Disarmed : Process X → Type 0
  Disarmed p = pending id p ≡ []

  Disarmed-IsLocal : IsLocal Disarmed
  unfolding pending
  Disarmed-IsLocal = record { world = λ p x h. h; jobs = λ p js h. h }

  activity-Disarmed :
      (other : String) (as' : List Action) → Keeps Disarmed (start_do_activity other as')
  unfolding pending start_do_activity
  activity-Disarmed other [] = record { at = λ p h. h }
  activity-Disarmed other (a ∷ as') = record { at = λ p h. h }

  stop_activity-Disarmed : Keeps Disarmed (stop_do_activity id)
  unfolding pending stop_do_activity
  stop_activity-Disarmed = record { at = λ p h. h }

  stop_timers-Disarmed : (p : Process X) → Disarmed (stop_timers id p).1
  stop_timers-Disarmed p = pending-stop_timers id p id ∙ rw (eq_refl id)

  arm-Disarmed :
      (other : String) (wf : WorkflowInstance) (context : StrMap)
      → (other == id) ≡ false
      → Keeps Disarmed (arm_state_activities host other wf context)
  unfolding arm_state_activities
  arm-Disarmed other wf context ne =
      Keeps-bind _ _ (activity-Disarmed other _)
        λ started. record { at = λ p h. pending-start_timers host other id _ p ∙ rw ne h }

  uuid_fresh : Returns (λ other. (other == id) ≡ false) (ask host.new_uuid)
  unfolding ask
  uuid_fresh = record {
    at = λ p a e. subst (λ c. (c == id) ≡ false) (ok-injective e) (fresh p.world);
  }

  child-Disarmed :
      (parent_id : String) (def : Workflow) (generation : String)
      → Keeps Disarmed (create_child_workflow_instance host parent_id def generation)
  child-Disarmed =
      create_child-Keeps host (λ other. (other == id) ≡ false) Disarmed-IsLocal uuid_fresh
        arm-Disarmed

  apply-Disarmed :
      (wf : WorkflowInstance) (t : Transition) (context : StrMap)
      → Keeps Disarmed (apply_transition host id wf t context)
  apply-Disarmed wf t context =
      apply_transition-Keeps host (IsLocal-KeptByCalls host Disarmed-IsLocal) child-Disarmed id wf t
        context stop_activity-Disarmed (record { at = λ p h. stop_timers-Disarmed p })

  -- A transition that is not internal leaves no timer of the instance pending, whether it succeeds or
  -- fails, provided that the generator of ids does not hand out the id of the instance again.
  pub apply_transition_disarms :
      (wf : WorkflowInstance) (t : Transition) (context : StrMap) (p : Process X)
      → is_internal (fields t).kind ≡ false
      → pending id (apply_transition host id wf t context p).1 ≡ []
  apply_transition_disarms wf t context p external =
      apply_transition_ends host (IsLocal-KeptByCalls host Disarmed-IsLocal) child-Disarmed id wf t
        context p external (stop_timers-Disarmed (stop_do_activity id p).1)

  take-Disarmed :
      (wf : WorkflowInstance) (t : Transition) (p : Process X)
      → is_internal (fields t).kind ≡ false
      → Disarmed (take_transition host id wf t p).1
  unfolding take_transition
  take-Disarmed wf t p external =
      bind_ends _ _ p (apply_transition_disarms wf t wf.context_map p external) λ applied.
        Keeps-bind _ _ (run_automatic_chain-Keeps host id apply-Disarmed applied.0 applied.1)
          λ chained. Keeps-bind _ _ (Keeps-try _ Disarmed-IsLocal) (λ saved. Keeps-pure _)

  fire-Disarmed :
      (event : String) (wf : WorkflowInstance) (t : Transition) (p : Process X)
      → is_internal (fields t).kind ≡ false
      → is_join t ≡ false
      → Disarmed (fire host id event wf (some t) p).1
  unfolding fire ◌>>=◌ continue pure
  fire-Disarmed event wf t p external no_gate = rw no_gate (take-Disarmed wf t p external)

  close-Disarmed : (r : Result Outcome) → Keeps Disarmed (close host r)
  unfolding close
  close-Disarmed (ok o) = search (keeps_rules, Disarmed-IsLocal)
  close-Disarmed (err e) = search (keeps_rules, Disarmed-IsLocal)

  -- An event that fails, where the row was read and a transition that is neither internal nor a join
  -- was found, leaves no timer of the instance pending, provided that the generator of ids does not
  -- hand out the id of the instance again.
  pub process_event_disarms :
      (event : String) (p : Process X) {wf : WorkflowInstance} (t : Transition) {x x' : X}
      (e : Error)
      → host.begin p.world ≡ (ok tt, x)
      → host.first_instance id x ≡ (ok wf, x')
      → find_candidate_transition host.floats wf event wf.context_map ≡ some t
      → is_internal (fields t).kind ≡ false
      → is_join t ≡ false
      → (process_event host id event p).0 ≡ err e
      → pending id (process_event host id event p).1 ≡ []
  unfolding transaction
  process_event_disarms event p {wf} t {x} {x'} e begun read found external no_gate failed =
      rw (process_event_failed host id event p e failed) (
        rw (bind_done _ _ (try_lem host.begin p begun)) (
          bind_ends _ _ (record p { world = x })
            (rw (read_then host id event (record p { world = x }) read)
              (rw found (fire-Disarmed event wf t (record p { world = x' }) external no_gate)))
            close-Disarmed))
