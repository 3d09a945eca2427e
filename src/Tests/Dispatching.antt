-- ===== src/Tests/Dispatching.antt =====
-- Interleavings of the dispatcher, and the theorems on them.
use brokr.Common.{
  ℕ, suc, ◌≤◌, ◌<◌, String, true, false, none, some, [], ◌∷◌, ◌++◌, length, lookup, insert, ◌≡◌,
  refl, arith,
}
use brokr.Engine.Effects.{Process, Result, ok}
use brokr.Engine.Dispatcher.{
  Command, Dispatcher, IsDrained, new_dispatcher, accept, deliver, take, compute, respond, finish,
  count_off, give_up, put, evict, reap, accept_at, Step, Reach,
}
use brokr.Engine.Dispatcher.Accounting.{current}
use brokr.Engine.Dispatcher.Exclusive.{IsQuiet, one_at_a_time, in_order, drained-IsQuiet}
use brokr.Engine.Dispatcher.Progress.{Works, work, drains}
use brokr.Engine.Dispatcher.Eviction.{Disarmed, stop_activities, eviction_disarms}
use brokr.Engine.Event.{process_event}
use brokr.Tests.Fixture.{Database, desk, process}

abbrev ask_pay : Command
ask_pay = record { event = "pay"; waits = true }

abbrev tick : Command
tick = record { event = "timeout"; waits = false }

-- An engine that counts the commands it was given.
abbrev count : String → String → ℕ → Result String × ℕ
count id event n = (ok event, suc n)

abbrev keep : String → ℕ → ℕ
keep id n = n

abbrev Counting : Dispatcher ℕ → Type 0
Counting = Reach count keep 0

-- Two commands for one instance: the first runs while the second waits in the mailbox.
abbrev first_sent : Dispatcher ℕ
first_sent = deliver 0 ask_pay [] (accept "a" ask_pay (new_dispatcher 0))

abbrev both_sent : Dispatcher ℕ
both_sent = deliver 0 tick [] (accept "a" tick first_sent)

abbrev first_runs : Dispatcher ℕ
first_runs = take 0 ask_pay (tick ∷ []) both_sent

first_sent_reached : Counting first_sent
unfolding accept accept_at put lookup
first_sent_reached =
    Reach.next (Reach.next Reach.start (Step.enqueue "a" ask_pay))
      (Step.send 0 ask_pay [] [] refl (omega arith))

both_sent_reached : Counting both_sent
unfolding accept accept_at put deliver lookup insert
both_sent_reached =
    Reach.next (Reach.next first_sent_reached (Step.enqueue "a" tick))
      (Step.send 0 tick [] [] refl (omega arith))

first_runs_reached : Counting first_runs
unfolding accept accept_at put deliver lookup insert
first_runs_reached =
    Reach.next both_sent_reached (Step.receive 0 ask_pay (tick ∷ []) refl refl refl)

-- The first is processed and answered while the second waits, and then the second.
abbrev first_done : Dispatcher ℕ
first_done =
    count_off
      (finish 0 ask_pay (respond 0 ask_pay (ok "pay") (compute count keep 0 ask_pay first_runs)))

abbrev both_done : Dispatcher ℕ
both_done = count_off (
    finish 0 tick
      (respond 0 tick (ok "timeout") (compute count keep 0 tick (take 0 tick [] first_done))))

first_done_reached : Counting first_done
unfolding accept accept_at put deliver take compute respond finish lookup insert
first_done_reached =
    Reach.next
      (Reach.next
        (Reach.next (Reach.next first_runs_reached (Step.process 0 ask_pay refl refl))
          (Step.reply 0 ask_pay (ok "pay") refl refl))
        (Step.done 0 ask_pay refl refl))
      (Step.depart refl)

both_done_reached : Counting both_done
unfolding accept accept_at put deliver take compute respond finish count_off lookup insert
both_done_reached =
    Reach.next
      (Reach.next
        (Reach.next
          (Reach.next (Reach.next first_done_reached (Step.receive 0 tick [] refl refl refl))
            (Step.process 0 tick refl refl))
          (Step.reply 0 tick (ok "timeout") refl refl))
        (Step.done 0 tick refl refl))
      (Step.depart refl)

counted_two : both_done.engine ≡ 2
unfolding count_off finish respond compute take deliver accept accept_at put lookup insert
counted_two = refl

-- Only the command that somebody waits for is answered.
one_answer : both_done.replies ≡ ("a", ask_pay, ok "pay") ∷ []
unfolding count_off finish respond compute take deliver accept lookup insert
one_answer = refl

first_runs_now : (first_runs.actors 0).running ≡ some ask_pay
unfolding take put
first_runs_now = refl

one_at_a_time_example : ◌≡◌ {A = ℕ} 0 0
one_at_a_time_example =
    one_at_a_time first_runs_reached 0 0 ask_pay ask_pay first_runs_now first_runs_now refl

in_order_example :
    ((first_runs.actors 0).sent
      ≡ (first_runs.actors 0).served
        ++ (current (first_runs.actors 0).running ++ (first_runs.actors 0).mailbox))
    × (length (first_runs.actors 0).mailbox ≤ 64)
in_order_example = in_order first_runs_reached 0

nothing_left : IsDrained both_done
unfolding count_off finish respond compute put take deliver accept lookup insert
nothing_left = refl

drained-IsQuiet_example : ((a : ℕ) → IsQuiet (both_done.actors a)) × (both_done.joins ≡ 0)
drained-IsQuiet_example = drained-IsQuiet both_done_reached nothing_left

drains_example :
    ((f : Dispatcher ℕ) × (m : ℕ) × Works count keep both_sent f m × IsDrained f)
    × ((e : Dispatcher ℕ) (n : ℕ) → Works count keep both_sent e n → n ≤ work both_sent)
drains_example = drains count keep both_sent_reached

-- Over the engine: a caller whose context is done takes its command back, and the actor is idle.
abbrev given_up : Dispatcher (Process Database)
given_up = give_up 0 [] (accept "a" ask_pay (new_dispatcher process))

given_up_used : 0 < given_up.next
unfolding accept accept_at put give_up lookup
given_up_used = omega arith

given_up_lives : (given_up.actors 0).retired ≡ false
unfolding accept accept_at put give_up lookup
given_up_lives = refl

given_up_idle : (given_up.actors 0).running ≡ none
unfolding accept accept_at put give_up lookup
given_up_idle = refl

given_up_empty : (given_up.actors 0).pending ≡ 0
unfolding accept accept_at put give_up lookup
given_up_empty = refl

eviction_disarms_example :
    let gone = reap (process_event desk) stop_activities "a" [] (evict 0 given_up) in
    Step (process_event desk) stop_activities given_up (evict 0 given_up)
    × (((evict 0 given_up).actors 0).retired ≡ true)
    × Step (process_event desk) stop_activities (evict 0 given_up) gone
    × Disarmed desk "a" given_up gone
unfolding accept accept_at put give_up lookup
eviction_disarms_example =
    eviction_disarms desk given_up 0 given_up_used given_up_lives given_up_idle given_up_empty
