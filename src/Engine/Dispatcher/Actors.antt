-- ===== src/Engine/Dispatcher/Actors.antt =====
-- engine/dispatcher.go: the struct instanceActor with its commands, and what each step does to one actor.
use brokr.Common.{ℕ, ◌+◌, ◌-◌, String, Bool, false, Option, none, some, List, [], ◌∷◌, ◌++◌}
use brokr.Engine.Effects.{Result}

-- `waits` says whether the caller waits for the reply.
pub record Command : Type 0 where
  pub event : String
  pub waits : Bool

-- How far an actor is with the command that it runs: processFn runs, it has returned, and what there was
-- to send was sent.
pub data Stage : Type 0 where
  computing : Stage
  returned : Result String → Stage
  answered : Stage

pub record Actor : Type 0 where
  pub id : String
  pub pending : ℕ
  -- goroutines in the `select` of enqueue, with this actor
  pub senders : List Command
  pub mailbox : List Command
  pub running : Option Command
  -- for the command that runs
  pub stage : Stage
  pub retired : Bool
  -- the history, which no step reads: what was put into the mailbox, and what was processed
  pub sent : List Command
  pub served : List Command

-- &instanceActor{id: id, mailbox: make(chan command, mailboxBuffer)}
abbrev pub new_actor : String → Actor
new_actor id = record {
  id = id;
  pending = 0;
  senders = [];
  mailbox = [];
  running = none;
  stage = computing;
  retired = false;
  sent = [];
  served = [];
}

-- a.pending++, by a goroutine that will send `cmd`
abbrev pub waiting : Command → Actor → Actor
waiting cmd a = record a { pending = a.pending + 1; senders = a.senders ++ cmd ∷ [] }

-- case a.mailbox <- cmd
abbrev pub delivered : Command → List Command → Actor → Actor
delivered cmd others a = record a {
  senders = others;
  mailbox = a.mailbox ++ cmd ∷ [];
  sent = a.sent ++ cmd ∷ [];
}

-- case <-cmd.ctx.Done()
abbrev pub withdrawn : List Command → Actor → Actor
withdrawn others a = record a { pending = a.pending - 1; senders = others }

-- case cmd := <-a.mailbox
abbrev pub taken : Command → List Command → Actor → Actor
taken cmd rest a = record a { running = some cmd; stage = computing; mailbox = rest }

-- a.pending--
abbrev pub finished : Command → Actor → Actor
finished cmd a = record a { running = none; pending = a.pending - 1; served = a.served ++ cmd ∷ [] }
