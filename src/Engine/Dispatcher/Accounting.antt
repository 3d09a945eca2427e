-- ===== src/Engine/Dispatcher/Accounting.antt =====
-- What holds of one actor: its counter, the order of its commands, and the room in its mailbox.
use mathlib.Core.List.{append_assoc}
use brokr.Common.{
  ℕ, suc, ◌+◌, ◌≤◌, ◌<◌, String, true, false, Option, none, some, List, [], ◌∷◌, ◌++◌, length,
  length-append, ◌≡◌, refl, ap, ◌∙◌, arith,
}
use brokr.Engine.Dispatcher.{
  Command, Stage, Actor, mailbox_buffer, new_actor, waiting, delivered, withdrawn, taken, finished,
}

abbrev pub busy : Option Command → ℕ
busy none = 0
busy (some cmd) = 1

abbrev pub current : Option Command → List Command
current none = []
current (some cmd) = cmd ∷ []

pub record Balanced (x : Actor) : Type 0 where
  -- the counter counts the commands that wait to be sent, those in the mailbox, and the one that runs
  pub counted : x.pending ≡ length x.senders + length x.mailbox + busy x.running
  -- what was sent is what was processed, what runs, and what is in the mailbox, in this order
  pub ordered : x.sent ≡ x.served ++ (current x.running ++ x.mailbox)
  pub bounded : length x.mailbox ≤ mailbox_buffer
  pub idle : x.retired ≡ true → x.pending ≡ 0

pub new_actor-Balanced : (id : String) → Balanced (new_actor id)
new_actor-Balanced id = record {
  counted = refl;
  ordered = refl;
  bounded = omega arith;
  idle = λ h. refl;
}

module _ {x : Actor} (h : Balanced x) where
  pub waiting-Balanced : (cmd : Command) → x.retired ≡ false → Balanced (waiting cmd x)
  waiting-Balanced cmd live = record {
    counted = omega (arith, h.counted, length-append x.senders (cmd ∷ []));
    ordered = h.ordered;
    bounded = h.bounded;
    idle = λ q. cc (q, live);
  }

  module _ (cmd : Command) (before after : List Command)
      (from : x.senders ≡ before ++ cmd ∷ after) where
    split : length x.senders ≡ suc (length (before ++ after))
    split = rw from (omega (arith, length-append before (cmd ∷ after), length-append before after))

    pub delivered-Balanced :
        length x.mailbox < mailbox_buffer → Balanced (delivered cmd (before ++ after) x)
    delivered-Balanced room = record {
      counted = omega (arith, h.counted, split, length-append x.mailbox (cmd ∷ []));
      ordered = rw h.ordered (simp append_assoc);
      bounded = omega (arith, room, length-append x.mailbox (cmd ∷ []));
      idle = h.idle;
    }

    pub withdrawn-Balanced : Balanced (withdrawn (before ++ after) x)
    withdrawn-Balanced = record {
      counted = omega (arith, h.counted, split);
      ordered = h.ordered;
      bounded = h.bounded;
      idle = λ q. omega (arith, h.idle q);
    }

  pub taken-Balanced :
      (cmd : Command) (rest : List Command)
      → x.running ≡ none
      → x.mailbox ≡ cmd ∷ rest
      → Balanced (taken cmd rest x)
  taken-Balanced cmd rest free from = record {
    counted = h.counted ∙ rw (free, from) (omega arith);
    ordered = h.ordered ∙ rw (free, from);
    bounded = (let e = ap length from in omega (arith, h.bounded, e));
    idle = h.idle;
  }

  pub staged-Balanced : (stage : Stage) → Balanced (record x { stage = stage })
  staged-Balanced stage = record {
    counted = h.counted;
    ordered = h.ordered;
    bounded = h.bounded;
    idle = h.idle;
  }

  pub finished-Balanced : (cmd : Command) → x.running ≡ some cmd → Balanced (finished cmd x)
  finished-Balanced cmd runs = record {
    counted = (let e = ap busy runs in omega (arith, h.counted, e));
    ordered = h.ordered ∙ rw runs (simp append_assoc);
    bounded = h.bounded;
    idle = λ q. omega (arith, h.idle q);
  }
