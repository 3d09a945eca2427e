-- ===== src/Engine/Activities/Goroutines/Contract.antt =====
-- What the timers promise: a stop reaches every goroutine.
use mathlib.Core.List.{Memᴰ}
use mathlib.Core.List.Memᴰ.{append_left, append_right, append_cases}
use brokr.Common.{
  ℕ, ◌<◌, String, true, false, Bool-cases, inl, inr, Option, List, [], ◌∷◌, ◌++◌, set_at, same,
  same_refl, All, ◌≡◌, refl, sym, ap, ◌∙◌, subst, arith,
}
use brokr.Model.Transition.{fields}
use brokr.Model.Workflow.{Transition}
use brokr.Engine.Activities.Goroutines.{
  Goroutine, TimerPool, registered, start, cancel, expire, fire, leave, Step, Reach,
}
use brokr.Engine.Activities.Goroutines.Tracked.{
  Spent, Tracked, All-Spent, stop-Tracked, stop_all-Tracked, start_timer-Tracked,
}

-- One goroutine goes on: for the same instance, with what is ready still ready, and waiting only if it
-- did before.
record Onward (old new : Goroutine) : Type 0 where
  instance_id : new.instance_id ≡ old.instance_id
  due : old.due ≡ true → new.due ≡ true
  cancelled : old.cancelled ≡ true → new.cancelled ≡ true
  waits : new.waits ≡ true → old.waits ≡ true
  left : old.waits ≡ false → new.waits ≡ false

abbrev with_goroutine : ℕ → Goroutine → TimerPool → TimerPool
with_goroutine g x t = record t { goroutines = set_at g x t.goroutines }

module _ (t : TimerPool) (g : ℕ) {x : Goroutine} (o : Onward (t.goroutines g) x) where
  set_at-Onward : (h : ℕ) → Onward (t.goroutines h) (set_at g x t.goroutines h)
  set_at-Onward h = elim (Bool-cases (same g h)) [
    | inl e ↦ let r : g ≡ h = ground arith in rw e (subst (λ i. Onward (t.goroutines i) x) r o)
    | inr e ↦ rw e (record {
      instance_id = refl;
      due = λ q. q;
      cancelled = λ q. q;
      waits = λ q. q;
      left = λ q. q;
    })
  ]

  Spent-onward : (h : ℕ) → Spent t h → Spent (with_goroutine g x t) h
  Spent-onward h (lt, w, d) = (lt, (set_at-Onward h).left w, (set_at-Onward h).due d)

  onward-Tracked : Tracked t → Tracked (with_goroutine g x t)
  onward-Tracked s = record {
    known = λ h lt w. elim (s.known h lt ((set_at-Onward h).waits w)) [
      | inl c ↦ inl ((set_at-Onward h).cancelled c)
      | inr later ↦ elim later [
        | inl m ↦ inr (inl m)
        | inr m ↦
            inr (inr (subst (λ i. Memᴰ h (registered i t)) (sym (set_at-Onward h).instance_id) m))
      ]
    ];
    spent = All-Spent t (with_goroutine g x t) t.fired Spent-onward s.spent;
    once = s.once;
  }

module _ {t : TimerPool} (s : Tracked t) (g : ℕ) where
  expire-Tracked : Tracked (expire g t)
  unfolding expire
  expire-Tracked =
      onward-Tracked t g {x = record (t.goroutines g) { due = true }}
        (record {
          instance_id = refl;
          due = λ q. refl;
          cancelled = λ q. q;
          waits = λ q. q;
          left = λ q. q;
        })
        s

  leave-Tracked : Tracked (leave g t)
  unfolding leave
  leave-Tracked =
      onward-Tracked t g {x = record (t.goroutines g) { waits = false }}
        (record {
          instance_id = refl;
          due = λ q. q;
          cancelled = λ q. q;
          waits = λ q. cc;
          left = λ q. refl;
        })
        s

  -- A goroutine that still waits is none of those that have fired.
  unfired :
      (gs : List ℕ)
      → (t.goroutines g).waits ≡ true
      → All (Spent t) gs
      → All (λ h. same g h ≡ false) gs
  unfired [] w h = tt
  unfired (h ∷ gs) w ((lt, w', d), hs) = (
    elim (Bool-cases (same g h)) [
      | inl e ↦
          let r : g ≡ h = ground arith in
          let q = ap (λ i. (t.goroutines i).waits) r in cc (q, w, w')
      | inr e ↦ e
    ],
    unfired gs w hs,
  )

  fire-Tracked :
      g < t.next → (t.goroutines g).waits ≡ true → (t.goroutines g).due ≡ true → Tracked (fire g t)
  unfolding fire leave
  fire-Tracked lt w d = record {
    known = leave-Tracked.known;
    spent = ((lt, rw (same_refl g) refl, rw (same_refl g) d), leave-Tracked.spent);
    once = (unfired t.fired w s.spent, s.once);
  }

  cancel-Tracked :
      (before after : List ℕ)
      → t.cancelling ≡ before ++ g ∷ after
      → Tracked (cancel g (before ++ after) t)
  unfolding cancel
  cancel-Tracked before after e =
      let c =
        onward-Tracked t g {x = record (t.goroutines g) { cancelled = true }}
          (record {
            instance_id = refl;
            due = λ q. q;
            cancelled = λ q. refl;
            waits = λ q. q;
            left = λ q. q;
          })
          s in
      record {
        known = λ h lt w. elim (Bool-cases (same g h)) [
          | inl q ↦ inl (rw q refl)
          | inr q ↦ elim (c.known h lt w) [
            | inl done ↦ inl done
            | inr later ↦ elim later [
              | inr m ↦ inr (inr m)
              | inl m ↦ inr (
                  inl (elim (append_cases before (rw e at m)) [
                    | inl b ↦ append_left after b
                    | inr rest ↦ append_right before (not_head q rest)
                  ]))
            ]
          ]
        ];
        spent = c.spent;
        once = s.once;
      }
    where
      not_head : {h : ℕ} → same g h ≡ false → Memᴰ h (g ∷ after) → Memᴰ h after
      not_head q (Memᴰ.head r) = absurd (let p = sym q ∙ ap (same g) r ∙ same_refl g in cc p)
      not_head q (Memᴰ.tail m) = m

module _ (parse : String → Option ℕ) where
  start-Tracked :
      (id : String) (ts : List Transition) {t : TimerPool}
      → Tracked t
      → Tracked (start parse id ts t)
  unfolding start
  start-Tracked id [] s = s
  start-Tracked id (timed ∷ ts) s =
      start-Tracked id ts (start_timer-Tracked s id timed (parse (fields timed).after))

  Step-Tracked : {t u : TimerPool} → Tracked t → Step parse t u → Tracked u
  Step-Tracked s (Step.starts id ts) = start-Tracked id ts s
  Step-Tracked s (Step.stops id) = stop-Tracked s id
  Step-Tracked s Step.stops_all = stop_all-Tracked s
  Step-Tracked s (Step.cancels g before after e) = cancel-Tracked s g before after e
  Step-Tracked s (Step.expires g) = expire-Tracked s g
  Step-Tracked s (Step.fires g lt w d) = fire-Tracked s g lt w d
  Step-Tracked s (Step.leaves g lt w c) = leave-Tracked s g

  Reach-Tracked : {t : TimerPool} → Reach parse t → Tracked t
  Reach-Tracked Reach.none_yet = record {
    known = λ g lt w. absurd (omega (arith, lt));
    spent = tt;
    once = tt;
  }
  Reach-Tracked (Reach.next r st) = Step-Tracked (Reach-Tracked r) st

  module _ {t : TimerPool} (r : Reach parse t) where
    -- Where the map has no timer of an instance and the cancel functions that were taken out of it have
    -- been called, as after stopTimers, every goroutine of the instance that still waits is cancelled.
    pub stopped_cancelled :
        (id : String)
        → registered id t ≡ []
        → t.cancelling ≡ []
        → (g : ℕ) → g < t.next
        → (t.goroutines g).instance_id ≡ id
        → (t.goroutines g).waits ≡ true
        → (t.goroutines g).cancelled ≡ true
    stopped_cancelled id unregistered called g lt own w = elim ((Reach-Tracked r).known g lt w) [
      | inl c ↦ c
      | inr later ↦ elim later [
        | inl m ↦ elim (rw called at m) [ ]
        | inr m ↦ elim (rw (own, unregistered) at m) [ ]
      ]
    ]
