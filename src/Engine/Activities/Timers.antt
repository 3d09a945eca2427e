-- ===== src/Engine/Activities/Timers.antt =====
-- Which timers are pending after the operations of engine/timers.go.
use brokr.Common.{
  ℕ, String, Option, none, some, List, [], ◌∷◌, ◌++◌, lookup-insert, lookup-delete, ◌≡◌, arith,
  eq_iff, ◌==◌, if◌then◌else◌,
}
use mathlib.Core.List.{append-nil, append_assoc}
use brokr.Model.Transition.{fields}
use brokr.Model.Workflow.{Transition}
use brokr.Engine.Effects.{Host, Process, Timer}
use brokr.Engine.Activities.{pending, stop_timers, start_timers, add_timer, add_timers}

module _ {X : Type 0} (id : String) (p : Process X) where
  -- After stopTimers no timer of the instance is pending, and those of every other instance still are.
  pub pending-stop_timers :
      (other : String)
      → pending other (stop_timers id p).1 ≡ (if id == other then [] else pending other p)
  unfolding pending stop_timers
  pending-stop_timers other = ground (arith, lookup-delete id other p.timers)

-- The timers that transitions arm; a delay that does not parse arms none.
module _ {F X : Type 0} (host : Host F X) where
  armed_by : Transition → Option ℕ → List Timer
  armed_by t none = []
  armed_by t (some delay) = record { delay = delay; event = (fields t).event } ∷ []

  unfoldable pub armed : List Transition → List Timer
  unfolding armed_by
  armed [] = []
  armed (t ∷ ts) = armed_by t (host.parse_duration (fields t).after) ++ armed ts

  pending-add_timer :
      (id other : String) (t : Transition) (delay : Option ℕ) (p : Process X)
      → pending other (add_timer host id t delay p)
        ≡ (if id == other then pending other p ++ armed_by t delay else pending other p)
  unfolding pending add_timer armed_by
  pending-add_timer id other t none p = ground (arith, append-nil (pending other p))
  pending-add_timer id other t (some delay) p =
      let timer : Timer = record { delay = delay; event = (fields t).event } in
      ground (arith, lookup-insert id other (pending id p ++ timer ∷ []) p.timers, eq_iff id other)

  pending-add_timers :
      (id other : String) (ts : List Transition) (p : Process X)
      → pending other (add_timers host id ts p)
        ≡ (if id == other then pending other p ++ armed ts else pending other p)
  unfolding add_timers armed
  pending-add_timers id other [] p = ground (arith, append-nil (pending other p))
  pending-add_timers id other (t ∷ ts) p =
      let delay = host.parse_duration (fields t).after in
      rw
        (
          pending-add_timers id other ts (add_timer host id t delay p),
          pending-add_timer id other t delay p,
        )
        (ground (arith, append_assoc (pending other p) (armed_by t delay) (armed ts)))

  -- startTimers appends, for the one instance, a timer for each transition whose delay parses.
  pub pending-start_timers :
      (id other : String) (ts : List Transition) (p : Process X)
      → pending other (start_timers host id ts p).1
        ≡ (if id == other then pending other p ++ armed ts else pending other p)
  unfolding start_timers
  pending-start_timers id other ts p = pending-add_timers id other ts p
