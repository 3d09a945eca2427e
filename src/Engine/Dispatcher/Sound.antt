-- ===== src/Engine/Dispatcher/Sound.antt =====
-- What holds of the dispatcher after any steps, in any order.
pub mod Steps
use native.Mathlib.Decide.{dec_lt}
use brokr.Common.{
  length-append, ℕ, ◌+◌, ◌-◌, ◌≤◌, ◌<◌, String, true, false, Option, none, some, List, ◌∷◌, ◌++◌,
  lookup, lookup-insert, lookup-delete, eq_iff, length, same, set_at-all, sum, sum_above, sum_part,
  sum_within, Bool-cases, inl, inr, ◌≡◌, ◌≢◌, refl, sym, ap, ◌∙◌, arith,
}
use brokr.Engine.Effects.{Result}
use brokr.Engine.Dispatcher.Accounting.{
  Balanced, new_actor-Balanced, waiting-Balanced, delivered-Balanced, withdrawn-Balanced,
  taken-Balanced, staged-Balanced, finished-Balanced, busy,
}
use brokr.Engine.Dispatcher.{
  Command, Actor, Dispatcher, new_actor, new_dispatcher, waiting, put, accept_at, accept, deliver,
  give_up, take, finished, evict, join_begun, join_ended, compute, respond, finish, reap, returned,
  answered, Step, enqueue, send, cancel, receive, process, reply, done, depart, count_off, retire,
  clean, spawn, joined, Reach,
}

abbrev pub weight : Actor → ℕ
weight a = a.pending

some≢none : {a : ℕ} → some a ≢ none
some≢none e = cc

module _ {S : Type 0} where
  pub record Sound (d : Dispatcher S) : Type 0 where
    pub balanced : (a : ℕ) → Balanced (d.actors a)
    -- the registry knows an actor that is not retired, by its own id
    pub named :
        (id : String) (a : ℕ)
        → lookup id d.registry ≡ some a
        → (a < d.next) × ((d.actors a).id ≡ id) × ((d.actors a).retired ≡ false)
    -- and every actor that is not retired is the one that the registry knows for its id
    pub listed :
        (a : ℕ)
        → a < d.next
        → (d.actors a).retired ≡ false
        → lookup (d.actors a).id d.registry ≡ some a
    pub free : (a : ℕ) → d.next ≤ a → (d.actors a).pending ≡ 0
    pub total : d.inflight ≡ sum weight d.next d.actors + d.joins + d.leaving

  new_dispatcher-Sound : (engine : S) → Sound (new_dispatcher engine)
  unfolding sum lookup
  new_dispatcher-Sound engine = record {
    balanced = λ a. new_actor-Balanced "";
    named = λ id a e. absurd (some≢none (sym e));
    listed = λ a lt e. absurd (omega (arith, lt));
    free = λ a h. refl;
    total = refl;
  }

  module _ {d : Dispatcher S} (s : Sound d) where
    -- An actor is replaced by one of the same name, and the WaitGroup follows its counter.
    put-Sound :
        (a : ℕ) (x : Actor) (inflight : ℕ)
        → a < d.next
        → x.id ≡ (d.actors a).id
        → x.retired ≡ (d.actors a).retired
        → Balanced x
        → inflight + (d.actors a).pending ≡ d.inflight + x.pending
        → Sound (put a x inflight d)
    unfolding put
    put-Sound a x inflight lt same_id same_life b e = record {
      balanced = set_at-all Balanced a x d.actors b s.balanced;
      named = λ id c q.
          let old = s.named id c q in
          elim (Bool-cases (same a c)) [
            | inl h ↦ let r : a ≡ c = ground arith in ground (arith, old)
            | inr h ↦ rw h old
          ];
      listed = λ c c_lt live. elim (Bool-cases (same a c)) [
        | inl h ↦
            let r : a ≡ c = ground arith in
            let q = s.listed a lt (sym same_life ∙ (rw h at live)) in
            rw h (ap (λ i. lookup i d.registry) same_id ∙ q ∙ ap some r)
        | inr h ↦ rw h (s.listed c c_lt (rw h at live))
      ];
      free = λ c h. ground (arith, s.free c h);
      total = (let w = sum_within weight d.next a x d.actors lt in omega (arith, s.total, e, w));
    }

    -- A new actor at the first free address, under an id that has none.
    born-Sound :
        (id : String) (cmd : Command)
        → lookup id d.registry ≡ none
        → Sound (accept_at id cmd none d)
    unfolding accept_at put sum
    born-Sound id cmd absent = record {
      balanced =
          set_at-all Balanced d.next (waiting cmd (new_actor id)) d.actors
            (waiting-Balanced (new_actor-Balanced id) cmd refl) s.balanced;
      named = λ other c q.
          ground
            (arith, lookup-insert id other d.next d.registry, eq_iff id other, s.named other c);
      listed = λ c lt live. ground (
        arith,
        lookup-insert id id d.next d.registry,
        lookup-insert id (d.actors c).id d.next d.registry,
        eq_iff id id,
        eq_iff id (d.actors c).id,
        s.listed c,
      );
      free = λ c h. ground (arith, s.free c (omega (arith, h)));
      total = ground (
        arith,
        s.total,
        sum_above weight d.next d.next (waiting cmd (new_actor id)) d.actors (omega arith),
      );
    }

    evict-Sound :
        (a : ℕ)
        → a < d.next
        → (d.actors a).retired ≡ false
        → (d.actors a).pending ≡ 0
        → Sound (evict a d)
    unfolding evict put
    evict-Sound a lt live zero_pending =
        let x : Actor = record (d.actors a) { retired = true } in
        let b = s.balanced a in
        record {
          balanced =
              set_at-all Balanced a x d.actors
                (record {
                  counted = b.counted;
                  ordered = b.ordered;
                  bounded = b.bounded;
                  idle = λ q. zero_pending;
                })
                s.balanced;
          named = λ id c q. ground (
            arith,
            lookup-delete (d.actors a).id id d.registry,
            eq_iff (d.actors a).id id,
            s.named id c,
          );
          listed = λ c c_lt c_live. ground (
            arith,
            lookup-delete (d.actors a).id (d.actors c).id d.registry,
            eq_iff (d.actors a).id (d.actors c).id,
            s.listed c,
            s.listed a,
          );
          free = λ c h. ground (arith, s.free c h);
          total = (let w = sum_within weight d.next a x d.actors lt in omega (arith, s.total, w));
        }

    -- An address with something pending is in use.
    pub used : (a : ℕ) → 0 < (d.actors a).pending → a < d.next
    used a h = elim (dec_lt a d.next) [
      | yes lt ↦ lt
      | no ge ↦ absurd (let e = s.free a (omega (arith, ge)) in omega (arith, e, h))
    ]

    pub sending :
        (a : ℕ) (cmd : Command) (before after : List Command)
        → (d.actors a).senders ≡ before ++ cmd ∷ after
        → 0 < (d.actors a).pending
    sending a cmd before after from =
        let e = ap length from in
        omega (arith, (s.balanced a).counted, e, length-append before (cmd ∷ after))

    pub running :
        (a : ℕ) (cmd : Command) → (d.actors a).running ≡ some cmd → 0 < (d.actors a).pending
    running a cmd runs = let e = ap busy runs in omega (arith, (s.balanced a).counted, e)

    pub stored :
        (a : ℕ) (cmd : Command) (rest : List Command)
        → (d.actors a).mailbox ≡ cmd ∷ rest
        → 0 < (d.actors a).pending
    stored a cmd rest from = let e = ap length from in omega (arith, (s.balanced a).counted, e)

    -- One command less, for the actor and for the WaitGroup.
    one_less :
        (a : ℕ)
        → 0 < (d.actors a).pending
        → d.inflight - 1 + (d.actors a).pending ≡ d.inflight + ((d.actors a).pending - 1)
    one_less a h =
        let part = sum_part weight d.next d.actors a (used a h) in omega (arith, s.total, part, h)

    accepted-Sound :
        (id : String) (cmd : Command) (found : Option ℕ)
        → lookup id d.registry ≡ found
        → Sound (accept_at id cmd found d)
    unfolding accept_at
    accepted-Sound id cmd none e = born-Sound id cmd e
    accepted-Sound id cmd (some a) e =
        let (lt, known, live) = s.named id a e in
        put-Sound a (waiting cmd (d.actors a)) (d.inflight + 1) lt refl refl
          (waiting-Balanced (s.balanced a) cmd live) (omega arith)

    -- The WaitGroup may count more goroutines that are no commands, and what the actors work on may change.
    joins-Sound :
        (inflight joins leaving : ℕ) (reaping : List String)
        (replies : List (String × Command × Result String)) (engine : S)
        → inflight + d.joins + d.leaving ≡ d.inflight + joins + leaving
        → Sound (record d {
          inflight = inflight;
          joins = joins;
          leaving = leaving;
          reaping = reaping;
          replies = replies;
          engine = engine;
        })
    joins-Sound inflight joins leaving reaping replies engine e = record {
      balanced = s.balanced;
      named = s.named;
      listed = s.listed;
      free = s.free;
      total = omega (arith, s.total, e);
    }

    -- An actor has one command less, and the WaitGroup is told later.
    finish-Sound :
        (a : ℕ) (cmd : Command) → (d.actors a).running ≡ some cmd → Sound (finish a cmd d)
    unfolding finish put
    finish-Sound a cmd runs =
        let x = finished cmd (d.actors a) in
        let h = running a cmd runs in
        let t =
          put-Sound a x (d.inflight - 1) (used a h) refl refl
            (finished-Balanced (s.balanced a) cmd runs) (one_less a h) in
        record {
          balanced = t.balanced;
          named = t.named;
          listed = t.listed;
          free = t.free;
          total =
              (let w = sum_within weight d.next a x d.actors (used a h) in
                omega (arith, s.total, w, h));
        }
