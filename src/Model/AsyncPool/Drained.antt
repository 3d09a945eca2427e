-- ===== src/Model/AsyncPool/Drained.antt =====
-- DrainAsyncPool: it can return, and then every job has run once.
use mathlib.Core.List.{append-nil, Perm}
use native.Mathlib.Decide.{dec_lt}
use brokr.Common.{
  ℕ, zero, suc, ◌+◌, ◌*◌, ◌≤◌, ◌<◌, Option, List, [], ◌∷◌, ◌++◌, length, length-append, ◌≡◌, refl,
  ap, ◌∙◌, subst, arith,
}
use brokr.Model.AsyncPool.{
  ℤ, AsyncPool, new_pool, enqueue, receive, finish, IsDrained, Step, submits, sends, receives,
  finishes, Reach,
}
use brokr.Model.AsyncPool.Sound.{Sound, split, new_pool-Sound, Step-Sound, Reach-Sound}

module _ {J : Type 0} where
  length-nil : (xs : List J) → length xs ≡ 0 → xs ≡ []
  length-nil [] h = refl
  length-nil (x ∷ xs) h = absurd (omega (arith, h))

  -- The steps that bring a job further.
  abbrev pub IsWork : {p q : AsyncPool J} → Step p q → Type 0
  IsWork (submits job) = ⊥
  IsWork (sends job before after e room) = Unit
  IsWork (receives job rest e room) = Unit
  IsWork (finishes job before after e) = Unit

  pub data Works (p : AsyncPool J) : AsyncPool J → Type 0 where
    at_once : Works p p
    onward : {q r : AsyncPool J} → Works p q → (st : Step q r) → IsWork st → Works p r

  -- The steps that are left for the jobs at most.
  work : AsyncPool J → ℕ
  work p = 3 * length p.senders + 2 * length p.jobs + length p.running

  Stepping : AsyncPool J → Type 0
  Stepping p = (q : AsyncPool J) × (st : Step p q) × IsWork st × (work q < work p)

  step_from :
      (p : AsyncPool J)
      → Sound p
      → 0 < p.count
      → (running jobs senders : List J) → p.running ≡ running
      → p.jobs ≡ jobs
      → p.senders ≡ senders
      → Stepping p
  unfolding Stepping work finish receive enqueue
  step_from p s h (job ∷ rest) jobs senders e f g =
      (_, finishes job [] rest e, tt, omega (arith, split [] job rest e))
  step_from p s h [] (job ∷ rest) senders e f g =
      let none_runs = ap length e in
      let some_wait = ap length f in
      (
        _,
        receives job rest f (omega (arith, none_runs, s.able)),
        tt,
        omega (arith, none_runs, some_wait, length-append p.running (job ∷ [])),
      )
  step_from p s h [] [] (job ∷ rest) e f g =
      let none_wait = ap length f in
      (
        _,
        sends job [] rest g (omega (arith, none_wait, s.able)),
        tt,
        omega (arith, split [] job rest g, length-append p.jobs (job ∷ [])),
      )
  step_from p s h [] [] [] e f g =
      let a = ap length e in
      let b = ap length f in let c = ap length g in absurd (omega (arith, s.counted, a, b, c, h))

  drain :
      (fuel : ℕ) {p q : AsyncPool J}
      → Sound q
      → Works p q
      → work q < fuel
      → (r : AsyncPool J) × Works p r × IsDrained r
  unfolding Stepping
  drain zero s w h = absurd (omega (arith, h))
  drain (suc fuel) {q = q} s w h = elim (dec_lt 0 q.count) [
    | no over ↦ (q, w, omega (arith, over))
    | yes left ↦
        let (r, st, is_work, less) = step_from q s left _ _ _ refl refl refl in
        drain fuel (Step-Sound s st) (onward w st is_work) (omega (arith, less, h))
  ]

  module _ (workers queue : Option ℤ) (processors : ℕ) {p : AsyncPool J}
      (r : Reach (new_pool workers queue processors) p) where
    sound : Sound p
    sound = Reach-Sound (new_pool-Sound workers queue processors) r

    -- Whatever the environment holds, at most as many jobs run as there are workers, at most as many
    -- wait as the queue has room for, and there is at least one worker and room for one job.
    pub pool_bounds :
        (length p.running ≤ p.workers)
        × (length p.jobs ≤ p.queue_size)
        × (1 ≤ p.workers)
        × (1 ≤ p.queue_size)
    pool_bounds = (sound.staffed, sound.queued, sound.able.0, sound.able.1)

    -- Where DrainAsyncPool returns, the jobs that have finished are those that were submitted, each as
    -- often, and no job waits or runs.
    pub drained_finished :
        IsDrained p
        → Perm p.submitted p.finished × (p.senders ≡ []) × (p.jobs ≡ []) × (p.running ≡ [])
    drained_finished h =
        let no_sender = length-nil p.senders (omega (arith, sound.counted, h)) in
        let no_job = length-nil p.jobs (omega (arith, sound.counted, h)) in
        let none_runs = length-nil p.running (omega (arith, sound.counted, h)) in
        (
          subst (Perm p.submitted)
              (ap (λ l. p.finished ++ (l ++ (p.jobs ++ p.senders))) none_runs
                ∙ ap (λ l. p.finished ++ (l ++ p.senders)) no_job
                ∙ ap (λ l. p.finished ++ l) no_sender
                ∙ append-nil p.finished)
              sound.kept,
          no_sender,
          no_job,
          none_runs,
        )

    -- From wherever the pool has come, DrainAsyncPool can return: some run of steps that submit nothing
    -- brings its counter to zero.
    pub pool_drains : (q : AsyncPool J) × Works p q × IsDrained q
    pool_drains = drain (suc (work p)) sound at_once (omega arith)
