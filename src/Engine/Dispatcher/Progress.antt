-- ===== src/Engine/Dispatcher/Progress.antt =====
-- Drain comes to an end: the commands that were accepted are processed by finitely many steps.
use brokr.Common.{
  ℕ, zero, suc, ◌+◌, ◌*◌, ◌-◌, ◌≤◌, ◌<◌, String, false, Option, none, some, List, [], ◌∷◌, ◌++◌,
  length, length-append, set_at, sum, sum_within, sum_witness, ◌≡◌, refl, ap, arith, inl, inr,
  Bool-cases, Bool-cases,
}
use native.Mathlib.Decide.{dec_lt}
use brokr.Engine.Effects.{Result}
use brokr.Engine.Dispatcher.{
  Command, Stage, computing, returned, answered, Actor, Dispatcher, delivered, taken, finished, put,
  deliver, take, compute, respond, finish, count_off, join_ended, IsDrained, Step, enqueue, send,
  cancel, receive, process, reply, done, depart, retire, clean, spawn, joined, Reach,
}
use brokr.Engine.Dispatcher.Accounting.{busy}
use brokr.Engine.Dispatcher.Sound.{Sound, weight, used, running, sending, stored}
use brokr.Engine.Dispatcher.Sound.Steps.{Step-Sound, Reach-Sound}

-- The steps that the command which runs has still to go through.
abbrev pub to_do : Option Command → Stage → ℕ
to_do none stage = 0
to_do (some cmd) computing = 4
to_do (some cmd) (returned result) = 3
to_do (some cmd) answered = 2

-- The steps that a command has still to go through: to be sent, received, processed, answered and
-- counted.
abbrev pub load : Actor → ℕ
load a = 6 * length a.senders + 5 * length a.mailbox + to_do a.running a.stage

module _ {S : Type 0} where
  unfoldable pub work : Dispatcher S → ℕ
  work d = sum load d.next d.actors + d.joins + d.leaving

  module _ (process_fn : String → String → S → Result String × S) (stop : String → S → S) where
    -- The steps that finish accepted work; the others accept more of it, give it up, or clean up.
    abbrev pub IsWork : {d e : Dispatcher S} → Step process_fn stop d e → Type 0
    IsWork (send _ _ _ _ _ _) = Unit
    IsWork (receive _ _ _ _ _ _) = Unit
    IsWork (process _ _ _ _) = Unit
    IsWork (reply _ _ _ _ _) = Unit
    IsWork (done _ _ _ _) = Unit
    IsWork (depart _) = Unit
    IsWork (joined _) = Unit
    IsWork _ = ⊥

    -- Runs of such steps, by their number.
    pub data Works (d : Dispatcher S) : Dispatcher S → ℕ → Type 0 where
      at_once : Works d d zero
      onward :
          {e f : Dispatcher S} {n : ℕ}
          → Works d e n
          → (st : Step process_fn stop e f) → IsWork st
          → Works d f (suc n)

    less :
        (d : Dispatcher S) (a : ℕ) (x : Actor)
        → a < d.next
        → load x < load (d.actors a)
        → sum load d.next (set_at a x d.actors) < sum load d.next d.actors
    less d a x lt h = let w = sum_within load d.next a x d.actors lt in omega (arith, w, h)

    pub work_decreases :
        {d e : Dispatcher S}
        → Sound d
        → (st : Step process_fn stop d e) → IsWork st
        → work e < work d
    unfolding work deliver take compute respond finish count_off join_ended put
    work_decreases {d} s (send a cmd before after from room) h =
        let p =
          less d a (delivered cmd (before ++ after) (d.actors a))
            (used s a (sending s a cmd before after from))
            (rw from (
              omega (
                arith,
                length-append before (cmd ∷ after),
                length-append before after,
                length-append (d.actors a).mailbox (cmd ∷ []),
              ))) in
        omega (arith, p)
    work_decreases {d} s (receive a cmd rest live idle from) h =
        let p =
          less d a (taken cmd rest (d.actors a)) (used s a (stored s a cmd rest from))
            (rw (from, idle) (omega arith)) in
        omega (arith, p)
    work_decreases {d} s (process a cmd runs at_stage) h =
        let result = (process_fn (d.actors a).id cmd.event d.engine).0 in
        let p =
          less d a (record (d.actors a) { stage = returned result })
            (used s a (running s a cmd runs)) (rw (runs, at_stage) (omega arith)) in
        omega (arith, p)
    work_decreases {d} s (reply a cmd result runs at_stage) h =
        let p =
          less d a (record (d.actors a) { stage = answered }) (used s a (running s a cmd runs))
            (rw (runs, at_stage) (omega arith)) in
        omega (arith, p)
    work_decreases {d} s (done a cmd runs at_stage) h =
        let lt = used s a (running s a cmd runs) in
        let w = sum_within load d.next a (finished cmd (d.actors a)) d.actors lt in
        let one_off : load (finished cmd (d.actors a)) + 2 ≡ load (d.actors a) =
          rw (runs, at_stage) (omega arith) in
        omega (arith, w, one_off)
    work_decreases {d} s (depart e) h = omega (arith, e)
    work_decreases {d} s (joined e) h = omega (arith, e)
    work_decreases {d} s (enqueue id cmd) h = absurd h
    work_decreases {d} s (cancel a cmd before after from asked) h = absurd h
    work_decreases {d} s (retire a lt live idle none_pending) h = absurd h
    work_decreases {d} s (clean id before after from) h = absurd h
    work_decreases {d} s (spawn a cmd runs at_stage) h = absurd h

    -- One more step of that kind is possible as long as the counter is not zero.
    Stepping : Dispatcher S → Type 0
    Stepping d = (e : Dispatcher S) × (st : Step process_fn stop d e) × IsWork st

    running_steps :
        (d : Dispatcher S) (a : ℕ) (cmd : Command) (stage : Stage)
        → (d.actors a).running ≡ some cmd
        → (d.actors a).stage ≡ stage
        → Stepping d
    unfolding Stepping
    running_steps d a cmd computing rr ee = (_, process a cmd rr ee, tt)
    running_steps d a cmd (returned result) rr ee = (_, reply a cmd result rr ee, tt)
    running_steps d a cmd answered rr ee = (_, done a cmd rr ee, tt)

    actor_steps :
        {d : Dispatcher S}
        → Sound d
        → (a : ℕ) (senders mailbox : List Command) (runs : Option Command)
        → (d.actors a).senders ≡ senders
        → (d.actors a).mailbox ≡ mailbox
        → (d.actors a).running ≡ runs
        → (d.actors a).retired ≡ false
        → 0 < (d.actors a).pending
        → Stepping d
    unfolding Stepping
    actor_steps s a senders mailbox (some cmd) ss mm rr live h = running_steps _ a cmd _ rr refl
    actor_steps s a senders (cmd ∷ rest) none ss mm rr live h =
        (_, receive a cmd rest live rr mm, tt)
    actor_steps s a (cmd ∷ after) [] none ss mm rr live h =
        (_, send a cmd [] after ss (let e = ap length mm in omega (arith, e)), tt)
    actor_steps s a [] [] none ss mm rr live h =
        let e₁ = ap length ss in
        let e₂ = ap length mm in
        let e₃ = ap busy rr in absurd (omega (arith, (s.balanced a).counted, e₁, e₂, e₃, h))

    awake :
        {d : Dispatcher S}
        → Sound d
        → (a : ℕ) → 0 < (d.actors a).pending
        → (d.actors a).retired ≡ false
    awake {d} s a h = elim (Bool-cases (d.actors a).retired) [
      | inl gone ↦ let e = (s.balanced a).idle gone in absurd (omega (arith, e, h))
      | inr q ↦ q
    ]

    progress : {d : Dispatcher S} → Sound d → 0 < d.inflight → Stepping d
    unfolding Stepping
    progress {d} s h = elim (dec_lt 0 d.joins) [
      | yes some_join ↦ (_, joined {n = d.joins - 1} (omega (arith, some_join)), tt)
      | no none_join ↦ elim (dec_lt 0 d.leaving) [
        | yes some_left ↦ (_, depart {n = d.leaving - 1} (omega (arith, some_left)), tt)
        | no none_left ↦
            let (a, lt, p) =
              sum_witness weight d.next d.actors
                (omega (arith, s.total, h, none_join, none_left)) in
            actor_steps s a _ _ _ refl refl refl (awake s a p) p
      ]
    ]

    -- The steps that were made, and those that are left to make at most.
    spent : {d e : Dispatcher S} {n : ℕ} → Sound d → Works d e n → Sound e × (work e + n ≤ work d)
    spent s at_once = (s, omega arith)
    spent s (onward w st is_work) =
        let (s', p) = spent s w in
        let q = work_decreases s' st is_work in
        (Step-Sound process_fn stop s' st, omega (arith, p, q))

    drain :
        (fuel : ℕ) {d e : Dispatcher S} {n : ℕ}
        → Sound e
        → Works d e n
        → work e < fuel
        → (f : Dispatcher S) × (m : ℕ) × Works d f m × IsDrained f
    unfolding Stepping
    drain zero s w h = absurd (omega (arith, h))
    drain (suc fuel) {d} {e} {n} s w h = elim (dec_lt 0 e.inflight) [
      | no at_zero ↦ (e, n, w, omega (arith, at_zero))
      | yes left ↦
          let (f, st, is_work) = progress s left in
          let p = work_decreases s st is_work in
          drain fuel (Step-Sound process_fn stop s st) (onward w st is_work) (omega (arith, p, h))
    ]

    -- From wherever the dispatcher has come, Drain can return: some run of the steps that send, receive,
    -- process and answer commands, and end auto-joins, brings its counter to zero. And every such run is
    -- short: it makes six steps at most for each sender, five for each command in a mailbox, four for each
    -- that runs, one for each iteration that has yet to tell the counter, and one for each auto-join.
    pub drains :
        {engine : S} {d : Dispatcher S}
        → Reach process_fn stop engine d
        → ((f : Dispatcher S) × (m : ℕ) × Works d f m × IsDrained f)
          × ((e : Dispatcher S) (n : ℕ) → Works d e n → n ≤ work d)
    drains {d = d} r =
        let s = Reach-Sound process_fn stop r in
        (
          drain (suc (work d)) s at_once (omega arith),
          λ e n w. (let p = (spent s w).1 in omega (arith, p)),
        )
