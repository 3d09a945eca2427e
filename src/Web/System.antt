-- ===== src/Web/System.antt =====
-- The whole process: requests, the dispatcher and the goroutines of auto-joins, in any order. Timers,
-- auto-joins and clients all put their events into the dispatcher by its step enqueue.
use brokr.Common.{String, ◌≢◌}
use brokr.Engine.AutoJoin.{attempt_auto_join}
use brokr.Engine.AutoJoin.Stored.{attempt_auto_join-Keeps}
use brokr.Engine.Effects.{Host, Process}
use brokr.Engine.Event.{process_event}
use brokr.Engine.Event.Stored.{process_event-Keeps}
use brokr.Engine.Storage.{Storage, AllWellFormed}
use brokr.Engine.Dispatcher.{Dispatcher, Step, new_dispatcher}
use brokr.Engine.Dispatcher.Eviction.{stop_activities}
use brokr.Engine.Dispatcher.Stored.{step_keeps, stop_activities-AllWellFormed}
use brokr.Web.{Dispatching, Request, Endpoint, serve}
use brokr.Web.Stored.{handled-AllWellFormed}

module _ {F X : Type 0} (host : Host F X) (service : Dispatching X) where
  -- A step of the dispatcher, the handler of a request other than those that send events, or an
  -- attempt of an auto-join.
  pub data SystemStep (d : Dispatcher (Process X)) : Dispatcher (Process X) → Type 0 where
    dispatches :
        {e : Dispatcher (Process X)}
        → Step (process_event host) stop_activities d e
        → SystemStep d e
    handles :
        (endpoint : Endpoint) (rq : Request)
        → endpoint ≢ Endpoint.event_sent
        → SystemStep d (record d { engine = (serve host service endpoint rq d.engine).1 })
    joins :
        (id : String) → SystemStep d (record d { engine = (attempt_auto_join host id d.engine).1 })

  pub data SystemRun (initial : Process X) : Dispatcher (Process X) → Type 0 where
    begins : SystemRun initial (new_dispatcher initial)
    goes_on :
        {d e : Dispatcher (Process X)} → SystemRun initial d → SystemStep d e → SystemRun initial e

module _ {F X : Type 0} {host : Host F X} (storage : Storage host) {service : Dispatching X} where
  SystemStep-kept :
      {d e : Dispatcher (Process X)}
      → SystemStep host service d e
      → AllWellFormed storage d.engine
      → AllWellFormed storage e.engine
  SystemStep-kept (dispatches st) h =
      step_keeps (process_event host) stop_activities (AllWellFormed storage)
        (λ id event p. (process_event-Keeps storage id event).at p)
        (stop_activities-AllWellFormed storage) st h
  SystemStep-kept {d} (handles endpoint rq other) h =
      handled-AllWellFormed storage service rq d.engine h endpoint (λ e. absurd (other e))
  SystemStep-kept {d} (joins id) h = (attempt_auto_join-Keeps storage id).at d.engine h

  -- Over a database that holds no row but those that are written (rows that a rollback brings back
  -- included): where every row is well formed (its position belongs to its definition, and its
  -- journey leads there), every row is well formed after any interleaving of requests of every
  -- kind, of attempts of auto-joins and of the events of any instances through the dispatcher
  -- (each handled in one step), with whatever is refused, fails or is rolled back in between.
  pub SystemRun-AllWellFormed :
      {initial : Process X} {d : Dispatcher (Process X)}
      → SystemRun host service initial d
      → AllWellFormed storage initial
      → AllWellFormed storage d.engine
  SystemRun-AllWellFormed begins h = h
  SystemRun-AllWellFormed (goes_on r st) h = SystemStep-kept st (SystemRun-AllWellFormed r h)
