-- ===== src/Engine/Dispatcher.antt =====
-- engine/dispatcher.go: one actor for each instance, interleaved in any order. What every actor runs,
-- processFn, is a parameter, as it is a variable there, and so is what an eviction stops. An iteration
-- of the loop in `run` is five steps, between which every other goroutine may go on: the command is
-- received, processFn has run, the reply is sent, pending is decremented, and inflight is. Only the last
-- one is freer than in the code: the actor need not wait for it. The lock of a shard makes each step
-- below one step; an id determines its shard, so the maps of the shards are one registry here.
pub mod Actors
pub mod Accounting
pub mod Sound
pub mod Exclusive
pub mod Eviction
pub mod Progress
pub mod Stored
use brokr.Common.{
  ℕ, zero, suc, ◌+◌, ◌-◌, ◌<◌, String, Bool, true, false, Option, none, some, List, [], ◌∷◌, ◌++◌,
  lookup, insert, delete, length, set_at, Entries, ◌≡◌,
}
use brokr.Engine.Effects.{Result}
pub use brokr.Engine.Dispatcher.Actors.{
  Command, Stage, computing, returned, answered, Actor, new_actor, waiting, delivered, withdrawn,
  taken, finished,
}

abbrev pub mailbox_buffer : ℕ
mailbox_buffer = 64

-- Actors by address: an address is a pointer, and `next` is the first that is free.
pub record Dispatcher (S : Type 0) : Type 0 where
  pub actors : ℕ → Actor
  pub next : ℕ
  pub registry : Entries ℕ
  -- the counter of the WaitGroup, and the goroutines of attemptAutoJoin that it counts too
  pub inflight : ℕ
  pub joins : ℕ
  -- iterations that have yet to call inflight.Done(); the actor may go on before that here
  pub leaving : ℕ
  -- evicted actors that have yet to stop the activities of their instance
  pub reaping : List String
  -- the answers that were sent to callers, the last one first
  pub replies : List (String × Command × Result String)
  pub engine : S

abbrev pub new_dispatcher : {S : Type 0} → S → Dispatcher S
new_dispatcher engine = record {
  actors = λ a. new_actor "";
  next = 0;
  registry = [];
  inflight = 0;
  joins = 0;
  leaving = 0;
  reaping = [];
  replies = [];
  engine = engine;
}

-- if cmd.reply != nil
abbrev pub answer :
    String
    → Command
    → Result String
    → List (String × Command × Result String)
    → List (String × Command × Result String)
answer id cmd result replies = elim cmd.waits [
  | true ↦ (id, cmd, result) ∷ replies
  | false ↦ replies
]

module _ {S : Type 0} where
  -- The actor at an address replaced, and the WaitGroup at a count.
  unfoldable pub put : ℕ → Actor → ℕ → Dispatcher S → Dispatcher S
  put a x inflight d = record d { actors = set_at a x d.actors; inflight = inflight }

  -- The part of enqueue under the lock, with what the registry holds.
  unfoldable pub accept_at : String → Command → Option ℕ → Dispatcher S → Dispatcher S
  unfolding put
  accept_at id cmd none d = record (put d.next (waiting cmd (new_actor id)) (d.inflight + 1) d) {
    next = suc d.next;
    registry = insert id d.next d.registry;
  }
  accept_at id cmd (some a) d = put a (waiting cmd (d.actors a)) (d.inflight + 1) d

  unfoldable pub accept : String → Command → Dispatcher S → Dispatcher S
  unfolding accept_at
  accept id cmd d = accept_at id cmd (lookup id d.registry) d

  -- The two ways out of the `select` of enqueue.
  unfoldable pub deliver : ℕ → Command → List Command → Dispatcher S → Dispatcher S
  unfolding put
  deliver a cmd others d = put a (delivered cmd others (d.actors a)) d.inflight d

  unfoldable pub give_up : ℕ → List Command → Dispatcher S → Dispatcher S
  unfolding put
  give_up a others d = put a (withdrawn others (d.actors a)) (d.inflight - 1) d

  unfoldable pub take : ℕ → Command → List Command → Dispatcher S → Dispatcher S
  unfolding put
  take a cmd rest d = put a (taken cmd rest (d.actors a)) d.inflight d

  -- if cmd.reply != nil { cmd.reply <- … }
  unfoldable pub respond : ℕ → Command → Result String → Dispatcher S → Dispatcher S
  unfolding put
  respond a cmd result d =
      let x = d.actors a in
      record (put a (record x { stage = answered }) d.inflight d) {
        replies = answer x.id cmd result d.replies;
      }

  -- a.pending-- under the lock
  unfoldable pub finish : ℕ → Command → Dispatcher S → Dispatcher S
  unfolding put
  finish a cmd d = record (put a (finished cmd (d.actors a)) d.inflight d) {
    leaving = d.leaving + 1;
  }

  -- inflight.Done()
  unfoldable pub count_off : Dispatcher S → Dispatcher S
  count_off d = record d { inflight = d.inflight - 1; leaving = d.leaving - 1 }

  -- The idle timer, where nothing is pending: delete(sh.actors, a.id), and later the two stops.
  unfoldable pub evict : ℕ → Dispatcher S → Dispatcher S
  unfolding put
  evict a d =
      let x = d.actors a in
      record (put a (record x { retired = true }) d.inflight d) {
        registry = delete x.id d.registry;
        reaping = d.reaping ++ x.id ∷ [];
      }

  -- inflight.Add(1) before `go attemptAutoJoin`, and its inflight.Done().
  unfoldable pub join_begun : Dispatcher S → Dispatcher S
  join_begun d = record d { inflight = d.inflight + 1; joins = d.joins + 1 }

  unfoldable pub join_ended : Dispatcher S → Dispatcher S
  join_ended d = record d { inflight = d.inflight - 1; joins = d.joins - 1 }

  -- Drain returns.
  abbrev pub IsDrained : Dispatcher S → Type 0
  IsDrained d = d.inflight ≡ 0

module _ {S : Type 0} (process_fn : String → String → S → Result String × S)
    (stop : String → S → S) where
  -- processFn has returned.
  unfoldable pub compute : ℕ → Command → Dispatcher S → Dispatcher S
  unfolding put
  compute a cmd d =
      let x = d.actors a in
      let (result, engine) = process_fn x.id cmd.event d.engine in
      record (put a (record x { stage = returned result }) d.inflight d) { engine = engine }

  unfoldable pub reap : String → List String → Dispatcher S → Dispatcher S
  reap id others d = record d { reaping = others; engine = stop id d.engine }

  -- One step of one goroutine. An idle timer that finds something pending changes nothing, and only a
  -- caller that waits has a context that can be done.
  pub data Step (d : Dispatcher S) : Dispatcher S → Type 0 where
    enqueue : (id : String) (cmd : Command) → Step d (accept id cmd d)
    send :
        (a : ℕ) (cmd : Command) (before after : List Command)
        → (d.actors a).senders ≡ before ++ cmd ∷ after
        → length (d.actors a).mailbox < mailbox_buffer
        → Step d (deliver a cmd (before ++ after) d)
    cancel :
        (a : ℕ) (cmd : Command) (before after : List Command)
        → (d.actors a).senders ≡ before ++ cmd ∷ after
        → cmd.waits ≡ true
        → Step d (give_up a (before ++ after) d)
    receive :
        (a : ℕ) (cmd : Command) (rest : List Command)
        → (d.actors a).retired ≡ false
        → (d.actors a).running ≡ none
        → (d.actors a).mailbox ≡ cmd ∷ rest
        → Step d (take a cmd rest d)
    process :
        (a : ℕ) (cmd : Command)
        → (d.actors a).running ≡ some cmd
        → (d.actors a).stage ≡ computing
        → Step d (compute a cmd d)
    reply :
        (a : ℕ) (cmd : Command) (result : Result String)
        → (d.actors a).running ≡ some cmd
        → (d.actors a).stage ≡ returned result
        → Step d (respond a cmd result d)
    done :
        (a : ℕ) (cmd : Command)
        → (d.actors a).running ≡ some cmd
        → (d.actors a).stage ≡ answered
        → Step d (finish a cmd d)
    depart : {n : ℕ} → d.leaving ≡ suc n → Step d (count_off d)
    retire :
        (a : ℕ)
        → a < d.next
        → (d.actors a).retired ≡ false
        → (d.actors a).running ≡ none
        → (d.actors a).pending ≡ 0
        → Step d (evict a d)
    clean :
        (id : String) (before after : List String)
        → d.reaping ≡ before ++ id ∷ after
        → Step d (reap id (before ++ after) d)
    spawn :
        (a : ℕ) (cmd : Command)
        → (d.actors a).running ≡ some cmd
        → (d.actors a).stage ≡ computing
        → Step d (join_begun d)
    joined : {n : ℕ} → d.joins ≡ suc n → Step d (join_ended d)

  pub data Reach (engine : S) : Dispatcher S → Type 0 where
    start : Reach engine (new_dispatcher engine)
    next : {d e : Dispatcher S} → Reach engine d → Step d e → Reach engine e
