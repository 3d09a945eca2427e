-- ===== src/Engine/Activities/Kept.antt =====
-- What starting and stopping timers and do-activities leaves alone in the process.
use brokr.Common.{ℕ, String, Option, none, some, List, [], ◌∷◌, StrMap, ◌≡◌, refl}
use brokr.Model.Workflow.{Action, Transition}
use brokr.Model.State.{get_do_actions}
use brokr.Engine.Instance.{WorkflowInstance, effective_state}
use brokr.Engine.Match.{find_deferred_transitions}
use brokr.Engine.Effects.{Host, Process, Timer, ok, ◌>>=◌, continue}
use brokr.Engine.Effects.Keeps.{Keeps, Keeps-bind}
use brokr.Engine.Activities.{
  start_do_activity, start_timers, add_timer, add_timers, stop_timers, stop_do_activity,
  arm_state_activities,
}

-- `I` says nothing of timers and do-activities.
pub record IsBackground {X : Type 0} (I : Process X → Type 0) : Type 0 where
  pub timers :
      (p : Process X) (ts : List (String × List Timer)) → I p → I (record p { timers = ts })
  pub do_activities :
      (p : Process X) (as' : List (String × List Action))
      → I p
      → I (record p { do_activities = as' })

module _ {X : Type 0} {I : Process X → Type 0} (b : IsBackground I) where
  pub stop_timers-Keeps : (id : String) → Keeps I (stop_timers id)
  unfolding stop_timers
  stop_timers-Keeps id = record { at = λ p h. b.timers p _ h }

  pub stop_do_activity-Keeps : (id : String) → Keeps I (stop_do_activity id)
  unfolding stop_do_activity
  stop_do_activity-Keeps id = record { at = λ p h. b.do_activities p _ h }

  pub start_do_activity-Keeps :
      (id : String) (as' : List Action) → Keeps I (start_do_activity id as')
  unfolding start_do_activity
  start_do_activity-Keeps id [] = record { at = λ p h. h }
  start_do_activity-Keeps id (a ∷ as') = record { at = λ p h. b.do_activities p _ h }

module _ {F X : Type 0} (host : Host F X) {I : Process X → Type 0} (b : IsBackground I) where
  add_timer-keeps :
      (id : String) (t : Transition) (delay : Option ℕ) (p : Process X)
      → I p
      → I (add_timer host id t delay p)
  unfolding add_timer
  add_timer-keeps id t none p h = h
  add_timer-keeps id t (some delay) p h = b.timers p _ h

  add_timers-keeps :
      (id : String) (ts : List Transition) (p : Process X) → I p → I (add_timers host id ts p)
  unfolding add_timers
  add_timers-keeps id [] p h = h
  add_timers-keeps id (t ∷ ts) p h = add_timers-keeps id ts _ (add_timer-keeps id t _ p h)

  pub arm-Keeps :
      (id : String) (wf : WorkflowInstance) (context : StrMap)
      → Keeps I (arm_state_activities host id wf context)
  unfolding arm_state_activities start_timers
  arm-Keeps id wf context = Keeps-bind _ _ (start_do_activity-Keeps b id _) (λ started. record {
    at = λ p h. add_timers-keeps id (find_deferred_transitions host.floats wf context) p h;
  })

module _ {F X : Type 0} (host : Host F X) where
  -- Arming never fails.
  pub arm_ok :
      (id : String) (wf : WorkflowInstance) (context : StrMap) (p : Process X)
      → (arm_state_activities host id wf context p).0 ≡ ok tt
  unfolding arm_state_activities start_timers start_do_activity ◌>>=◌ continue
  arm_ok id wf context p = start_ok (get_do_actions (effective_state wf.current_state))
    where
      start_ok :
          (as' : List Action)
          → ((start_do_activity id as' >>= λ _.
                start_timers host id (find_deferred_transitions host.floats wf context))
              p).0
            ≡ ok tt
      start_ok [] = refl
      start_ok (a ∷ as') = refl
