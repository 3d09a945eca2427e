-- ===== src/Engine/Activities/Goroutines.antt =====
-- engine/timers.go: the goroutines behind the pending timers, as steps in any order. One goroutine
-- waits for each transition that startTimers arms; stopTimers takes its cancel function out of the map
-- and calls it after the lock is released.
pub mod Tracked
pub mod Contract
use brokr.Common.{
  ℕ, suc, ◌<◌, String, Bool, true, false, Option, none, some, List, [], ◌∷◌, ◌++◌, Entries, lookup,
  insert, delete, set_at, ◌≡◌,
}
use brokr.Model.Transition.{fields}
use brokr.Model.Workflow.{Transition}

-- The variables that a goroutine closes over, whether time.After and ctx.Done are ready, and whether
-- it still waits in its select.
pub record Goroutine : Type 0 where
  pub instance_id : String
  pub event : String
  pub delay : ℕ
  pub due : Bool
  pub cancelled : Bool
  pub waits : Bool

abbrev pub new_goroutine : String → String → ℕ → Goroutine
new_goroutine id event delay = record {
  instance_id = id;
  event = event;
  delay = delay;
  due = false;
  cancelled = false;
  waits = true;
}

-- Goroutines by number; `next` is the first that is free.
pub record TimerPool : Type 0 where
  pub goroutines : ℕ → Goroutine
  pub next : ℕ
  -- timerStops, with the goroutine that a cancel function stops in its place
  pub stops : Entries (List ℕ)
  -- cancel functions that were taken out of the map and have yet to be called
  pub cancelling : List ℕ
  -- the goroutines that have called dispatchAsyncFn, the last one first
  pub fired : List ℕ

abbrev pub no_timers : TimerPool
no_timers = record {
  goroutines = λ g. new_goroutine "" "" 0;
  next = 0;
  stops = [];
  cancelling = [];
  fired = [];
}

abbrev pub or_nil : Option (List ℕ) → List ℕ
or_nil none = []
or_nil (some gs) = gs

-- timerStops[id]
abbrev pub registered : String → TimerPool → List ℕ
registered id t = or_nil (lookup id t.stops)

-- One pass of the loop of startTimers, with what ParseDuration returns.
unfoldable pub start_timer : String → Transition → Option ℕ → TimerPool → TimerPool
start_timer id timed none t = t
start_timer id timed (some delay) t = record t {
  goroutines = set_at t.next (new_goroutine id (fields timed).event delay) t.goroutines;
  next = suc t.next;
  stops = insert id (registered id t ++ t.next ∷ []) t.stops;
}

-- startTimers
unfoldable pub start : (String → Option ℕ) → String → List Transition → TimerPool → TimerPool
unfolding start_timer
start parse id [] t = t
start parse id (timed ∷ rest) t =
    start parse id rest (start_timer id timed (parse (fields timed).after) t)

-- stopTimers and StopAllTimers, up to the release of the lock
unfoldable pub stop : String → TimerPool → TimerPool
stop id t = record t { stops = delete id t.stops; cancelling = t.cancelling ++ registered id t }

unfoldable pub all_registered : Entries (List ℕ) → List ℕ
all_registered [] = []
all_registered ((id, gs) ∷ entries) = gs ++ all_registered entries

unfoldable pub stop_all : TimerPool → TimerPool
stop_all t = record t { stops = []; cancelling = t.cancelling ++ all_registered t.stops }

-- cancel()
unfoldable pub cancel : ℕ → List ℕ → TimerPool → TimerPool
cancel g others t = record t {
  goroutines = set_at g (record (t.goroutines g) { cancelled = true }) t.goroutines;
  cancelling = others;
}

-- The delay is over.
unfoldable pub expire : ℕ → TimerPool → TimerPool
expire g t = record t {
  goroutines = set_at g (record (t.goroutines g) { due = true }) t.goroutines;
}

-- The two ways out of the select.
unfoldable pub fire : ℕ → TimerPool → TimerPool
fire g t = record t {
  goroutines = set_at g (record (t.goroutines g) { waits = false }) t.goroutines;
  fired = g ∷ t.fired;
}

unfoldable pub leave : ℕ → TimerPool → TimerPool
leave g t = record t {
  goroutines = set_at g (record (t.goroutines g) { waits = false }) t.goroutines;
}

-- One step of one goroutine; where both cases of a select are ready, either may be taken.
pub data Step (parse : String → Option ℕ) (t : TimerPool) : TimerPool → Type 0 where
  starts : (id : String) (ts : List Transition) → Step parse t (start parse id ts t)
  stops : (id : String) → Step parse t (stop id t)
  stops_all : Step parse t (stop_all t)
  cancels :
      (g : ℕ) (before after : List ℕ)
      → t.cancelling ≡ before ++ g ∷ after
      → Step parse t (cancel g (before ++ after) t)
  expires : (g : ℕ) → Step parse t (expire g t)
  fires :
      (g : ℕ)
      → g < t.next
      → (t.goroutines g).waits ≡ true
      → (t.goroutines g).due ≡ true
      → Step parse t (fire g t)
  leaves :
      (g : ℕ)
      → g < t.next
      → (t.goroutines g).waits ≡ true
      → (t.goroutines g).cancelled ≡ true
      → Step parse t (leave g t)

pub data Reach (parse : String → Option ℕ) : TimerPool → Type 0 where
  none_yet : Reach parse no_timers
  next : {t u : TimerPool} → Reach parse t → Step parse t u → Reach parse u
