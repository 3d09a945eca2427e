-- ===== src/Engine/Dispatcher/Sound/Steps.antt =====
-- Every step, and so every run, leaves the dispatcher sound.
use brokr.Common.{◌-◌, String, lookup, refl, arith}
use brokr.Engine.Effects.{Result}
use brokr.Engine.Dispatcher.Accounting.{
  delivered-Balanced, withdrawn-Balanced, taken-Balanced, staged-Balanced,
}
use brokr.Engine.Dispatcher.{
  Dispatcher, put, accept, deliver, give_up, take, join_begun, join_ended, compute, respond, reap,
  returned, answered, Step, enqueue, send, cancel, receive, process, reply, done, depart, count_off,
  retire, clean, spawn, joined, Reach,
}
use brokr.Engine.Dispatcher.Sound.{
  Sound, new_dispatcher-Sound, accepted-Sound, put-Sound, joins-Sound, finish-Sound, evict-Sound,
  used, sending, running, stored, one_less,
}

module _ {S : Type 0} (process_fn : String → String → S → Result String × S)
    (stop : String → S → S) where
  pub Step-Sound : {d e : Dispatcher S} → Sound d → Step process_fn stop d e → Sound e
  unfolding accept deliver give_up take compute respond count_off reap join_begun join_ended put
  Step-Sound {d} s (enqueue id cmd) = accepted-Sound s id cmd (lookup id d.registry) refl
  Step-Sound {d} s (send a cmd before after from room) =
      put-Sound s a _ d.inflight (used s a (sending s a cmd before after from)) refl refl
        (delivered-Balanced (s.balanced a) cmd before after from room) refl
  Step-Sound {d} s (cancel a cmd before after from asked) =
      let h = sending s a cmd before after from in
      put-Sound s a _ (d.inflight - 1) (used s a h) refl refl
        (withdrawn-Balanced (s.balanced a) cmd before after from) (one_less s a h)
  Step-Sound {d} s (receive a cmd rest live idle from) =
      put-Sound s a _ d.inflight (used s a (stored s a cmd rest from)) refl refl
        (taken-Balanced (s.balanced a) cmd rest idle from) refl
  Step-Sound {d} s (process a cmd runs at_stage) =
      joins-Sound
        (put-Sound s a _ d.inflight (used s a (running s a cmd runs)) refl refl
          (staged-Balanced (s.balanced a)
            (returned (process_fn (d.actors a).id cmd.event d.engine).0))
          refl)
        d.inflight d.joins d.leaving d.reaping d.replies _ refl
  Step-Sound {d} s (reply a cmd result runs at_stage) =
      joins-Sound
        (put-Sound s a _ d.inflight (used s a (running s a cmd runs)) refl refl
          (staged-Balanced (s.balanced a) answered) refl)
        d.inflight d.joins d.leaving d.reaping _ d.engine refl
  Step-Sound s (done a cmd runs at_stage) = finish-Sound s a cmd runs
  Step-Sound {d} s (depart e) =
      joins-Sound s _ d.joins _ d.reaping d.replies d.engine (omega (arith, s.total, e))
  Step-Sound s (retire a lt live idle zero_pending) = evict-Sound s a lt live zero_pending
  Step-Sound {d} s (clean id before after from) =
      joins-Sound s d.inflight d.joins d.leaving _ d.replies _ refl
  Step-Sound {d} s (spawn a cmd runs at_stage) =
      joins-Sound s _ _ d.leaving d.reaping d.replies d.engine (omega arith)
  Step-Sound {d} s (joined e) =
      joins-Sound s _ _ d.leaving d.reaping d.replies d.engine (omega (arith, s.total, e))

  pub Reach-Sound : {engine : S} {d : Dispatcher S} → Reach process_fn stop engine d → Sound d
  Reach-Sound {engine} Reach.start = new_dispatcher-Sound engine
  Reach-Sound (Reach.next r st) = Step-Sound (Reach-Sound r) st
