-- ===== src/Engine/Dispatcher/Eviction.antt =====
-- The dispatcher over the engine: what the eviction of an actor stops.
use mathlib.Core.List.{append-nil}
use text.Mathlib.TextPositions.{eq_refl}
use brokr.Common.{
  ℕ, ◌==◌, String, false, true, same_refl, subst, none, [], lookup, lookup-delete, if◌then◌else◌,
  ◌<◌, ◌≡◌, refl, arith,
}
use brokr.Engine.Activities.{pending, stop_timers, stop_do_activity}
use brokr.Engine.Effects.{Host, Process, modify}
use brokr.Engine.Event.{process_event}
use brokr.Engine.Dispatcher.{Dispatcher, Step, put, evict, reap}

-- stopDoActivity(a.id) and stopTimers(a.id)
unfoldable pub stop_activities : {X : Type 0} → String → Process X → Process X
stop_activities id p = (stop_timers id (stop_do_activity id p).1).1

module _ {F X : Type 0} (host : Host F X) where
  -- What an eviction leaves of one instance and of all others.
  pub record Disarmed (id : String) (d e : Dispatcher (Process X)) : Type 0 where
    pub unregistered : lookup id e.registry ≡ none
    pub world : e.engine.world ≡ d.engine.world
    pub timers :
        (other : String)
        → pending other e.engine ≡ (if id == other then [] else pending other d.engine)
    pub do_activities :
        (other : String)
        → lookup other e.engine.do_activities
          ≡ (if id == other then none else lookup other d.engine.do_activities)

  -- Wherever an actor has nothing pending and runs nothing, its idle timer may evict it, and the
  -- goroutine may then stop the activities of its instance: these are two steps. The first one retires
  -- the actor; after both the instance has no actor in the registry, the database is as it was, no
  -- timer and no do-activity of the instance is left, however long the delays are, and those of every
  -- other instance are as they were.
  pub eviction_disarms :
      (d : Dispatcher (Process X)) (a : ℕ)
      → a < d.next
      → (d.actors a).retired ≡ false
      → (d.actors a).running ≡ none
      → (d.actors a).pending ≡ 0
      → let id = (d.actors a).id in
        let gone = reap (process_event host) stop_activities id d.reaping (evict a d) in
        Step (process_event host) stop_activities d (evict a d)
        × (((evict a d).actors a).retired ≡ true)
        × Step (process_event host) stop_activities (evict a d) gone
        × Disarmed id d gone
  unfolding reap evict put stop_activities stop_do_activity stop_timers modify pending
  eviction_disarms d a lt live idle zero_pending =
      let id = (d.actors a).id in
      (
        Step.retire a lt live idle zero_pending,
        rw (same_refl a) refl,
        subst
            (λ rest.
              Step (process_event host) stop_activities (evict a d)
                (reap (process_event host) stop_activities id rest (evict a d)))
            (append-nil d.reaping) (Step.clean id d.reaping [] refl),
        record {
          unregistered = rw (lookup-delete id id d.registry, eq_refl id) refl;
          world = refl;
          timers = λ other. ground (arith, lookup-delete id other d.engine.timers);
          do_activities = λ other. lookup-delete id other d.engine.do_activities;
        },
      )
