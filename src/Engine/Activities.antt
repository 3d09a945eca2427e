-- ===== src/Engine/Activities.antt =====
-- engine/timers.go and engine/doactivity.go: what runs while an instance stays in a state.
pub mod Timers
pub mod Kept
pub mod Goroutines
use brokr.Common.{
  ℕ, String, Option, none, some, List, [], ◌∷◌, ◌++◌, StrMap, lookup, insert, delete,
}
use brokr.Model.Guard.{Floats}
use brokr.Model.State.{get_do_actions}
use brokr.Model.Transition.{fields}
use brokr.Model.Workflow.{Action, Transition}
use brokr.Engine.Instance.{WorkflowInstance, effective_state}
use brokr.Engine.Match.{find_deferred_transitions}
use brokr.Engine.Effects.{Host, Process, Timer, Exec, modify, ◌>>=◌, ◌>>◌}

-- A missing key reads as the nil slice.
unfoldable pub pending : {X : Type 0} → String → Process X → List Timer
pending id p = elim (lookup id p.timers) [ none ↦ [] | some ts ↦ ts ]

unfoldable pub stop_timers : {X : Type 0} → String → Exec X (Unit {0})
unfolding modify
stop_timers id = modify (λ p. record p { timers = delete id p.timers })

unfoldable pub stop_all_timers : {X : Type 0} → Exec X (Unit {0})
unfolding modify
stop_all_timers = modify (λ p. record p { timers = [] })

unfoldable pub stop_do_activity : {X : Type 0} → String → Exec X (Unit {0})
unfolding modify
stop_do_activity id = modify (λ p. record p { do_activities = delete id p.do_activities })

unfoldable pub stop_all_do_activities : {X : Type 0} → Exec X (Unit {0})
unfolding modify
stop_all_do_activities = modify (λ p. record p { do_activities = [] })

-- A state without do-actions starts nothing.
unfoldable pub start_do_activity : {X : Type 0} → String → List Action → Exec X (Unit {0})
unfolding modify
start_do_activity id [] = modify (λ p. p)
start_do_activity id (a ∷ activity) =
    modify (λ p. record p { do_activities = insert id (a ∷ activity) p.do_activities })

module _ {F X : Type 0} (host : Host F X) where
  -- timerStops[id] = append(timerStops[id], cancel), unless the delay does not parse.
  add_timer : String → Transition → Option ℕ → Process X → Process X
  add_timer id t none p = p
  add_timer id t (some delay) p =
      let timer : Timer = record { delay = delay; event = (fields t).event } in
      record p { timers = insert id (pending id p ++ timer ∷ []) p.timers }

  add_timers : String → List Transition → Process X → Process X
  add_timers id [] p = p
  add_timers id (t ∷ ts) p =
      add_timers id ts (add_timer id t (host.parse_duration (fields t).after) p)

  unfoldable pub start_timers : String → List Transition → Exec X (Unit {0})
  unfolding add_timers add_timer pending modify
  start_timers id ts = modify (add_timers id ts)

  -- armStateActivities
  unfoldable pub arm_state_activities : String → WorkflowInstance → StrMap → Exec X (Unit {0})
  arm_state_activities id wf context = do
    start_do_activity id (get_do_actions (effective_state wf.current_state))
    start_timers id (find_deferred_transitions host.floats wf context)
