-- ===== src/Engine/Dispatcher/Exclusive.antt =====
-- What the dispatcher promises to the engine: one command of an instance at a time, in the order in
-- which the mailbox took them, and none lost.
use brokr.Common.{
  ℕ, ◌≤◌, String, true, false, Option, none, some, List, [], ◌∷◌, ◌++◌, lookup, length, sum_zero,
  ◌≡◌, refl, sym, ap, ◌∙◌, arith, Bool-cases, inl, inr,
}
use mathlib.Core.Option.{some-injective}
use mathlib.Core.List.{append-nil}
use native.Mathlib.Decide.{dec_lt}
use brokr.Engine.Effects.{Result}
use brokr.Engine.Dispatcher.{Command, Actor, Dispatcher, IsDrained, Reach}
use brokr.Engine.Dispatcher.Accounting.{Balanced, busy, current}
use brokr.Engine.Dispatcher.Sound.{weight, used, running}
use brokr.Engine.Dispatcher.Sound.Steps.{Reach-Sound}

-- The actor has nothing to do, and all that was sent to it has been processed.
pub record IsQuiet (x : Actor) : Type 0 where
  pub no_sender : x.senders ≡ []
  pub empty : x.mailbox ≡ []
  pub idle : x.running ≡ none
  pub all_served : x.sent ≡ x.served

length-nil {ℓ} : {A : Type ℓ} (xs : List A) → length xs ≡ 0 → xs ≡ []
length-nil [] h = refl
length-nil (x ∷ xs) h = absurd (omega (arith, h))

busy-none : (r : Option Command) → busy r ≡ 0 → r ≡ none
busy-none none h = refl
busy-none (some cmd) h = absurd (omega (arith, h))

pub Balanced-IsQuiet : {x : Actor} → Balanced x → x.pending ≡ 0 → IsQuiet x
Balanced-IsQuiet {x} b h =
    let empty = length-nil x.mailbox (omega (arith, b.counted, h)) in
    let idle = busy-none x.running (omega (arith, b.counted, h)) in
    record {
      no_sender = length-nil x.senders (omega (arith, b.counted, h));
      empty = empty;
      idle = idle;
      all_served = b.ordered ∙ rw (idle, empty) (append-nil x.served);
    }

module _ {S : Type 0} {process_fn : String → String → S → Result String × S} {stop : String → S → S}
    {engine : S} {d : Dispatcher S} (r : Reach process_fn stop engine d) where
  live : (a : ℕ) (cmd : Command) → (d.actors a).running ≡ some cmd → (d.actors a).retired ≡ false
  live a cmd runs = elim (Bool-cases (d.actors a).retired) [
    | inl gone ↦
        let s = Reach-Sound process_fn stop r in
        let zero_pending = (s.balanced a).idle gone in
        let some_pending = running s a cmd runs in
        absurd (omega (arith, zero_pending, some_pending))
    | inr q ↦ q
  ]

  registered :
      (a : ℕ) (cmd : Command)
      → (d.actors a).running ≡ some cmd
      → lookup (d.actors a).id d.registry ≡ some a
  registered a cmd runs =
      let s = Reach-Sound process_fn stop r in
      s.listed a (used s a (running s a cmd runs)) (live a cmd runs)

  -- After any interleaving, two actors that run a command for one instance are one actor: the commands
  -- of an instance are processed one at a time.
  pub one_at_a_time :
      (a b : ℕ) (cmd other : Command)
      → (d.actors a).running ≡ some cmd
      → (d.actors b).running ≡ some other
      → (d.actors a).id ≡ (d.actors b).id
      → a ≡ b
  one_at_a_time a b cmd other runs runs' e =
      some-injective a b
        (sym (registered a cmd runs) ∙ ap (λ id. lookup id d.registry) e ∙ registered b other runs')

  -- After any interleaving, what an actor's mailbox has taken is what was processed, then what runs,
  -- then what waits in the mailbox, in this order; and the mailbox holds at most 64 commands.
  pub in_order :
      (a : ℕ)
      → ((d.actors a).sent
          ≡ (d.actors a).served ++ (current (d.actors a).running ++ (d.actors a).mailbox))
        × (length (d.actors a).mailbox ≤ 64)
  in_order a =
      let s = Reach-Sound process_fn stop r in ((s.balanced a).ordered, (s.balanced a).bounded)

  -- An actor that was evicted has nothing left to do and lost no command.
  pub retired-IsQuiet : (a : ℕ) → (d.actors a).retired ≡ true → IsQuiet (d.actors a)
  retired-IsQuiet a gone =
      let s = Reach-Sound process_fn stop r in
      Balanced-IsQuiet (s.balanced a) ((s.balanced a).idle gone)

  -- Where Drain returns, every actor has processed all that was sent to it, no caller waits to send, and
  -- no auto-join is under way.
  pub drained-IsQuiet : IsDrained d → ((a : ℕ) → IsQuiet (d.actors a)) × (d.joins ≡ 0)
  drained-IsQuiet h =
      let s = Reach-Sound process_fn stop r in
      (
        λ a. Balanced-IsQuiet (s.balanced a) (elim (dec_lt a d.next) [
          | yes lt ↦ sum_zero weight d.next d.actors (omega (arith, s.total, h)) a lt
          | no ge ↦ s.free a (omega (arith, ge))
        ]),
        omega (arith, s.total, h),
      )
