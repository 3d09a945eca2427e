-- ===== src/Engine/Activities/Goroutines/Tracked.antt =====
-- What holds of the goroutines of the timers after any steps.
use mathlib.Core.List.{Memᴰ}
use mathlib.Core.List.Memᴰ.{append_left, append_right}
use brokr.Common.{
  ℕ, ◌<◌, String, true, false, Bool-cases, inl, inr, ◌⊎◌, Option, none, some, List, [], ◌∷◌, ◌==◌,
  eq_iff, Entries, lookup, insert, delete, lookup-insert, lookup-delete, same, All, ◌≡◌, refl, sym,
  subst, arith, if◌then◌else◌,
}
use brokr.Model.Workflow.{Transition}
use brokr.Engine.Activities.Goroutines.{
  TimerPool, or_nil, registered, start_timer, stop, all_registered, stop_all,
}

-- The goroutine is cancelled, or somebody will cancel it.
abbrev pub Known : TimerPool → ℕ → Type 0
Known t g =
    ((t.goroutines g).cancelled ≡ true)
    ⊎ (Memᴰ g t.cancelling ⊎ Memᴰ g (registered (t.goroutines g).instance_id t))

-- The goroutine has fired, after its delay.
abbrev pub Spent : TimerPool → ℕ → Type 0
Spent t g = (g < t.next) × ((t.goroutines g).waits ≡ false) × ((t.goroutines g).due ≡ true)

abbrev pub Distinct : List ℕ → Type 0
Distinct [] = Unit
Distinct (g ∷ gs) = All (λ h. same g h ≡ false) gs × Distinct gs

pub record Tracked (t : TimerPool) : Type 0 where
  pub known : (g : ℕ) → g < t.next → (t.goroutines g).waits ≡ true → Known t g
  pub spent : All (Spent t) t.fired
  pub once : Distinct t.fired

pub All-Spent :
    (t u : TimerPool) (gs : List ℕ)
    → ((g : ℕ) → Spent t g → Spent u g)
    → All (Spent t) gs
    → All (Spent u) gs
All-Spent t u [] f h = tt
All-Spent t u (g ∷ gs) f (s, h) = (f g s, All-Spent t u gs f h)

-- The map after a write, and after a delete.
registered-insert :
    (id wanted : String) (gs : List ℕ) (entries : Entries (List ℕ))
    → or_nil (lookup wanted (insert id gs entries))
      ≡ (if id == wanted then gs else or_nil (lookup wanted entries))
registered-insert id wanted gs entries = elim (Bool-cases (id == wanted)) [
  | inl e ↦ rw (lookup-insert, e) refl
  | inr e ↦ rw (lookup-insert, e) refl
]

registered-delete :
    (id wanted : String) (entries : Entries (List ℕ))
    → or_nil (lookup wanted (delete id entries))
      ≡ (if id == wanted then [] else or_nil (lookup wanted entries))
registered-delete id wanted entries = elim (Bool-cases (id == wanted)) [
  | inl e ↦ rw (lookup-delete, e) refl
  | inr e ↦ rw (lookup-delete, e) refl
]

registered-all :
    (id : String) (entries : Entries (List ℕ)) {g : ℕ}
    → Memᴰ g (or_nil (lookup id entries))
    → Memᴰ g (all_registered entries)
unfolding lookup all_registered
registered-all id [] m = elim m [ ]
registered-all id ((other, gs) ∷ entries) m = elim (Bool-cases (other == id)) [
  | inl e ↦ append_left _ (rw e at m)
  | inr e ↦ append_right gs (registered-all id entries (rw e at m))
]

module _ {t : TimerPool} (s : Tracked t) where
  pub stop-Tracked : (id : String) → Tracked (stop id t)
  unfolding stop
  stop-Tracked id = record {
    known = λ g lt w. elim (s.known g lt w) [
      | inl c ↦ inl c
      | inr later ↦ elim later [
        | inl m ↦ inr (inl (append_left _ m))
        | inr m ↦ elim (Bool-cases (id == (t.goroutines g).instance_id)) [
          | inl e ↦ inr (
              inl (
                append_right t.cancelling (
                  subst (λ i. Memᴰ g (registered i t))
                    (sym ((eq_iff id (t.goroutines g).instance_id).0 e)) m)))
          | inr e ↦ inr (inr (rw (registered-delete, e) m))
        ]
      ]
    ];
    spent = s.spent;
    once = s.once;
  }

  pub stop_all-Tracked : Tracked (stop_all t)
  unfolding stop_all
  stop_all-Tracked = record {
    known = λ g lt w. elim (s.known g lt w) [
      | inl c ↦ inl c
      | inr later ↦ elim later [
        | inl m ↦ inr (inl (append_left _ m))
        | inr m ↦ inr (inl (append_right t.cancelling (registered-all _ t.stops m)))
      ]
    ];
    spent = s.spent;
    once = s.once;
  }

  pub start_timer-Tracked :
      (id : String) (timed : Transition) (delay : Option ℕ) → Tracked (start_timer id timed delay t)
  unfolding start_timer
  start_timer-Tracked id timed none = s
  start_timer-Tracked id timed (some delay) = record {
    known = λ g lt w. elim (Bool-cases (same t.next g)) [
      | inl e ↦
          let r : t.next ≡ g = ground arith in
          rw e (
            inr (
              inr (
                rw (registered-insert id id, (eq_iff id id).1 refl)
                  (append_right (registered id t) (Memᴰ.head (sym r))))))
      | inr e ↦ rw e (elim (s.known g (ground arith) (rw e at w)) [
        | inl c ↦ inl c
        | inr later ↦ elim later [
          | inl m ↦ inr (inl m)
          | inr m ↦ inr (
              inr (elim (Bool-cases (id == (t.goroutines g).instance_id)) [
                | inl q ↦
                    rw (registered-insert, q)
                      (append_left _ (
                        subst (λ i. Memᴰ g (registered i t))
                          (sym ((eq_iff id (t.goroutines g).instance_id).0 q)) m))
                | inr q ↦ rw (registered-insert, q) m
              ]))
        ]
      ])
    ];
    spent =
        All-Spent t (start_timer id timed (some delay) t) t.fired
          (λ g (lt, w, d).
            let e : same t.next g ≡ false = ground arith in (omega (arith, lt), rw e w, rw e d))
          s.spent;
    once = s.once;
  }
