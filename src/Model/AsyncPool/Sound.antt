-- ===== src/Model/AsyncPool/Sound.antt =====
-- What holds of the pool after any steps.
use mathlib.Core.List.{append_assoc, Perm, perm_middle}
use mathlib.Core.List.Perm
use brokr.Common.{
  ℕ, suc, ◌+◌, ◌≤◌, ◌<◌, Option, List, [], ◌∷◌, ◌++◌, length, length-append, ◌≡◌, refl, sym, ap,
  ◌∙◌, subst, arith,
}
use brokr.Model.AsyncPool.{
  ℤ, pos, negsuc, at_least_one, env_int, AsyncPool, new_pool, submit, enqueue, receive, finish,
  Step, submits, sends, receives, finishes, Reach,
}

at_least_one-pos : (n : ℤ) → 1 ≤ at_least_one n
unfolding at_least_one
at_least_one-pos (negsuc n) = omega arith
at_least_one-pos (pos n) = ground arith

module _ {J : Type 0} where
  -- Everything that was submitted, by where it is.
  abbrev pub located : AsyncPool J → List J
  located p = p.finished ++ (p.running ++ (p.jobs ++ p.senders))

  pub record Sound (p : AsyncPool J) : Type 0 where
    pub counted : p.count ≡ length p.senders + length p.jobs + length p.running
    pub kept : Perm p.submitted (located p)
    pub queued : length p.jobs ≤ p.queue_size
    pub staffed : length p.running ≤ p.workers
    pub able : (1 ≤ p.workers) × (1 ≤ p.queue_size)

  pub split :
      {xs : List J} (before : List J) (job : J) (after : List J)
      → xs ≡ before ++ job ∷ after
      → length xs ≡ suc (length (before ++ after))
  split before job after e =
      ap length e ∙ omega (arith, length-append before (job ∷ after), length-append before after)

  -- A job that is taken out of one part and appended to the part before it.
  moved :
      (xs before after : List J) (job : J)
      → Perm (xs ++ (before ++ job ∷ after)) ((xs ++ job ∷ []) ++ (before ++ after))
  moved xs before after job =
      subst (λ zs. Perm (xs ++ (before ++ job ∷ after)) zs)
        (sym (append_assoc xs (job ∷ []) (before ++ after)))
        (Perm.append (Perm.refl xs) (perm_middle before after))

  moved_before :
      (xs before after ys : List J) (job : J)
      → Perm (xs ++ ((before ++ job ∷ after) ++ ys)) ((xs ++ job ∷ []) ++ ((before ++ after) ++ ys))
  moved_before xs before after ys job =
      rw (append_assoc before (job ∷ after) ys, append_assoc before after ys)
        (moved xs before (after ++ ys) job)

  pub new_pool-Sound :
      (workers queue : Option ℤ) (processors : ℕ)
      → Sound (new_pool {J = J} workers queue processors)
  unfolding new_pool
  new_pool-Sound workers queue processors = record {
    counted = refl;
    kept = Perm.refl [];
    queued = omega arith;
    staffed = omega arith;
    able = (
      at_least_one-pos (env_int workers (pos (processors + processors))),
      at_least_one-pos (env_int queue (pos 1024)),
    );
  }

  module _ {p : AsyncPool J} (s : Sound p) where
    submit-Sound : (job : J) → Sound (submit job p)
    unfolding submit
    submit-Sound job = record {
      counted = omega (arith, s.counted, length-append p.senders (job ∷ []));
      kept =
          subst (λ zs. Perm (p.submitted ++ job ∷ []) zs) (simp append_assoc)
            (Perm.append s.kept (Perm.refl (job ∷ [])));
      queued = s.queued;
      staffed = s.staffed;
      able = s.able;
    }

    enqueue-Sound :
        (job : J) (before after : List J)
        → p.senders ≡ before ++ job ∷ after
        → length p.jobs < p.queue_size
        → Sound (enqueue job (before ++ after) p)
    unfolding enqueue
    enqueue-Sound job before after e room = record {
      counted = omega (arith, s.counted, split before job after e, length-append p.jobs (job ∷ []));
      kept =
          Perm.trans
            (subst (λ r. Perm p.submitted (p.finished ++ (p.running ++ (p.jobs ++ r)))) e s.kept)
            (Perm.append (Perm.refl p.finished)
              (Perm.append (Perm.refl p.running) (moved p.jobs before after job)));
      queued = omega (arith, room, length-append p.jobs (job ∷ []));
      staffed = s.staffed;
      able = s.able;
    }

    receive-Sound :
        (job : J) (rest : List J)
        → p.jobs ≡ job ∷ rest
        → length p.running < p.workers
        → Sound (receive job rest p)
    unfolding receive
    receive-Sound job rest e room = record {
      counted =
          (let l = ap length e in omega (arith, s.counted, l, length-append p.running (job ∷ [])));
      kept =
          subst (Perm p.submitted)
            (ap (λ l. p.finished ++ (p.running ++ (l ++ p.senders))) e
              ∙ ap (λ l. p.finished ++ l)
                  (sym (append_assoc p.running (job ∷ []) (rest ++ p.senders))))
            s.kept;
      queued = (let l = ap length e in omega (arith, s.queued, l));
      staffed = omega (arith, room, length-append p.running (job ∷ []));
      able = s.able;
    }

    finish-Sound :
        (job : J) (before after : List J)
        → p.running ≡ before ++ job ∷ after
        → Sound (finish job (before ++ after) p)
    unfolding finish
    finish-Sound job before after e = record {
      counted = omega (arith, s.counted, split before job after e);
      kept =
          Perm.trans
            (subst (λ r. Perm p.submitted (p.finished ++ (r ++ (p.jobs ++ p.senders)))) e s.kept)
            (moved_before p.finished before after (p.jobs ++ p.senders) job);
      queued = s.queued;
      staffed = omega (arith, s.staffed, split before job after e);
      able = s.able;
    }

  pub Step-Sound : {p q : AsyncPool J} → Sound p → Step p q → Sound q
  Step-Sound s (submits job) = submit-Sound s job
  Step-Sound s (sends job before after e room) = enqueue-Sound s job before after e room
  Step-Sound s (receives job rest e room) = receive-Sound s job rest e room
  Step-Sound s (finishes job before after e) = finish-Sound s job before after e

  pub Reach-Sound : {start p : AsyncPool J} → Sound start → Reach start p → Sound p
  Reach-Sound s Reach.here = s
  Reach-Sound s (Reach.next r st) = Step-Sound (Reach-Sound s r) st
