-- ===== src/Engine/Dispatcher/Stored.antt =====
-- The dispatcher over the engine, on a database all of whose rows are well formed.
use brokr.Common.{ℕ, String, Option, none, some, lookup}
use brokr.Engine.Activities.{stop_timers, stop_do_activity}
use brokr.Engine.Effects.{Host, Result, Process, modify}
use brokr.Engine.Storage.{Storage, AllWellFormed}
use brokr.Engine.Dispatcher.{
  Dispatcher, Command, accept, accept_at, put, deliver, give_up, take, evict, join_begun,
  join_ended, compute, respond, finish, count_off, reap, Step,
}
use brokr.Engine.Dispatcher.Eviction.{stop_activities}

module _ {S : Type 0} (process_fn : String → String → S → Result String × S) (stop : String → S → S)
    (J : S → Type 0) (processed : (id event : String) (s : S) → J s → J (process_fn id event s).1)
    (stopped : (id : String) (s : S) → J s → J (stop id s)) where
  -- What processFn and an eviction keep of the engine, every step keeps.
  pub step_keeps : {d e : Dispatcher S} → Step process_fn stop d e → J d.engine → J e.engine
  unfolding accept accept_at put deliver give_up take evict join_begun join_ended count_off compute
      respond finish reap
  step_keeps {d} (Step.enqueue id cmd) h = accepted_keeps id cmd (lookup id d.registry) d h
    where
      accepted_keeps :
          (id : String) (cmd : Command) (found : Option ℕ) (d : Dispatcher S)
          → J d.engine
          → J (accept_at id cmd found d).engine
      accepted_keeps id cmd none d h = h
      accepted_keeps id cmd (some a) d h = h
  step_keeps (Step.send a cmd before after e room) h = h
  step_keeps (Step.cancel a cmd before after e waits) h = h
  step_keeps (Step.receive a cmd rest live idle e) h = h
  step_keeps {d} (Step.process a cmd e at_stage) h = processed (d.actors a).id cmd.event d.engine h
  step_keeps (Step.reply a cmd result e at_stage) h = h
  step_keeps (Step.done a cmd e at_stage) h = h
  step_keeps (Step.depart e) h = h
  step_keeps (Step.retire a lt live idle none_pending) h = h
  step_keeps {d} (Step.clean id before after e) h = stopped id d.engine h
  step_keeps (Step.spawn a cmd e at_stage) h = h
  step_keeps (Step.joined e) h = h

module _ {F X : Type 0} {host : Host F X} (storage : Storage host) where
  pub stop_activities-AllWellFormed :
      (id : String) (p : Process X)
      → AllWellFormed storage p
      → AllWellFormed storage (stop_activities id p)
  unfolding stop_activities stop_timers stop_do_activity modify
  stop_activities-AllWellFormed id p h = h
