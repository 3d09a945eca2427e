-- ===== src/Tests/Ticking.antt =====
-- Interleavings of the goroutines of timers, and the theorems on them.
use brokr.Common.{
  ℕ, String, true, some, none, [], ◌∷◌, ◌==◌, ◌<◌, ◌≡◌, refl, arith, if◌then◌else◌, Option, lookup,
  insert, delete,
}
use brokr.Engine.Activities.Goroutines.{
  TimerPool, no_timers, registered, start_timer, start, stop, cancel, fire, Step, Reach,
}
use brokr.Engine.Activities.Goroutines.Contract.{stopped_cancelled}
use brokr.Engine.Activities.Goroutines
use brokr.Tests.Fixture.{expire}

abbrev minutes : String → Option ℕ
minutes s = if s == "15m" then some 900 else none

abbrev started : TimerPool
started = start minutes "a" (expire ∷ []) no_timers

started_reached : Reach minutes started
started_reached = Reach.next Reach.none_yet (Step.starts "a" (expire ∷ []))

abbrev stopped : TimerPool
stopped = cancel 0 [] (stop "a" started)

stopped_reached : Reach minutes stopped
unfolding start start_timer stop lookup insert
stopped_reached =
    Reach.next (Reach.next started_reached (Step.stops "a")) (Step.cancels 0 [] [] refl)

nothing_registered : registered "a" stopped ≡ []
unfolding start start_timer stop cancel lookup delete insert
nothing_registered = refl

all_called : stopped.cancelling ≡ []
unfolding cancel
all_called = refl

one_started : 0 < stopped.next
unfolding start start_timer stop cancel
one_started = omega arith

for_a : (stopped.goroutines 0).instance_id ≡ "a"
unfolding start start_timer stop cancel
for_a = refl

still_waits : (stopped.goroutines 0).waits ≡ true
unfolding start start_timer stop cancel
still_waits = refl

stopped_cancelled_example : (stopped.goroutines 0).cancelled ≡ true
stopped_cancelled_example =
    stopped_cancelled minutes stopped_reached "a" nothing_registered all_called 0 one_started for_a
      still_waits

abbrev ticked : TimerPool
ticked = fire 0 (Goroutines.expire 0 started)

ticked_reached : Reach minutes ticked
unfolding start start_timer Goroutines.expire
ticked_reached =
    Reach.next (Reach.next started_reached (Step.expires 0)) (Step.fires 0 (omega arith) refl refl)
