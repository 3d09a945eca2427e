-- ===== src/Engine/Event/Recorded.antt =====
-- What an event that is processed has read, saved and committed, in the order of the calls.
use brokr.Common.{String, not, ◌&&◌, Option, none, some, ◌≡◌, refl, ◌∙◌, sym, ap}
use brokr.Model.Workflow.{Transition}
use brokr.Engine.Instance.{WorkflowInstance}
use brokr.Engine.Match.{find_candidate_transition}
use brokr.Engine.Effects.{
  Host, Result, ok, err, Process, Exec, pure, raise, ask, try, ◌>>=◌, continue,
}
use brokr.Engine.Effects.Returns.{
  Ends, Ends-raise, Ends-then, ok-injective, ok≢err, bind_ok, bind_err, bind_done, bind_failed,
  try_lem,
}
use brokr.Engine.Event.{Outcome, settle, fire, take_transition, transact, transaction, close}

module _ {F X : Type 0} (host : Host F X) where
  -- The last call wrote the row.
  abbrev pub IsWritten : WorkflowInstance → X → Type 0
  IsWritten row after = (before : X) × (host.save_instance row before ≡ (ok tt, after))

  -- An outcome against the row that was read, and the world after the write.
  pub record Recorded (wf : WorkflowInstance) (o : Outcome) (p : Process X) : Type 0 where
    pub just_completed : o.just_completed ≡ (not wf.complete && o.row.complete)
    pub written : IsWritten o.row p.world

  module _ (wf : WorkflowInstance) (o : Outcome)
      (just : o.just_completed ≡ (not wf.complete && o.row.complete)) where
    abbrev saving : Exec X Outcome
    saving = try (host.save_instance o.row) >>= λ _. pure o

    saved_case :
        (p : Process X) (a : Outcome) (r : Result (Unit {0})) (x : X)
        → host.save_instance o.row p.world ≡ (r, x)
        → (saving p).0 ≡ ok a
        → Recorded wf a (saving p).1
    unfolding pure
    saved_case p a (err e) x s h =
        absurd (
          ok≢err (sym h ∙ ap (λ q. q.0) (bind_failed _ _ (try_lem (host.save_instance o.row) p s))))
    saved_case p a (ok u) x s h =
        let done = bind_done _ (λ _. pure o) (try_lem (host.save_instance o.row) p s) in
        let same : o ≡ a = ok-injective (sym (ap (λ q. q.0) done) ∙ h) in
        rw (done, ← same) (record { just_completed = just; written = (p.world, s) })

    save-Recorded : Ends (Recorded wf) saving
    save-Recorded = record { at = λ p a h. saved_case p a _ _ refl h }

  fire-Recorded :
      (id event : String) (wf : WorkflowInstance) (found : Option Transition)
      → Ends (Recorded wf) (fire host id event wf found)
  unfolding fire take_transition settle
  fire-Recorded id event wf none = Ends-raise _
  fire-Recorded id event wf (some t) =
      Ends-then _ _
        λ gate. Ends-then _ _ λ applied. Ends-then _ _ λ chained. save-Recorded wf _ refl

  module _ (id event : String) (p : Process X) (o : Outcome) where
    read_case :
        (r : Result WorkflowInstance)
        → (host.first_instance id p.world).0 ≡ r
        → (transact host id event p).0 ≡ ok o
        → (wf : WorkflowInstance) × ((host.first_instance id p.world).0 ≡ ok wf)
          × Recorded wf o (transact host id event p).1
    unfolding transact try
    read_case (err e) read h =
        absurd (ok≢err (sym h ∙ ap (λ q. q.0) (bind_err (try (host.first_instance id)) _ p read)))
    read_case (ok wf) read h =
        let candidate = find_candidate_transition host.floats wf event wf.context_map in
        let rest : WorkflowInstance → Exec X Outcome = λ wf'.
          fire host id event wf'
            (find_candidate_transition host.floats wf' event wf'.context_map) in
        let fired = bind_ok (try (host.first_instance id)) rest p read in
        (
          wf,
          read,
          rw fired (
              (fire-Recorded id event wf candidate).at (try (host.first_instance id) p).1 o
                (sym (ap (λ q. q.0) fired) ∙ h)),
        )

    pub transact-Recorded :
        (transact host id event p).0 ≡ ok o
        → (wf : WorkflowInstance) × ((host.first_instance id p.world).0 ≡ ok wf)
          × Recorded wf o (transact host id event p).1
    transact-Recorded h = read_case _ refl h

  module _ (body : Exec X Outcome) (p : Process X) (o : Outcome) where
    abbrev begun : Process X
    begun = record p { world = (host.begin p.world).1 }

    commit_case :
        (q : Process X) (c : Result (Unit {0}))
        → (host.commit q.world).0 ≡ c
        → (a : Outcome) → (close host (ok a) q).0 ≡ ok o
        → (a ≡ o) × (c ≡ ok tt)
    unfolding close ◌>>=◌ continue try pure
    commit_case q (ok u) c a h = (ok-injective (rw c at h), refl)
    commit_case q (err e) c a h = absurd (ok≢err (sym (rw c at h)))

    close_case :
        (r : Result Outcome) (q : Process X)
        → (close host r q).0 ≡ ok o
        → (r ≡ ok o) × ((host.commit q.world).0 ≡ ok tt)
    unfolding close ◌>>=◌ continue ask raise
    close_case (ok a) q h = let (same, c) = commit_case q _ refl a h in (ap ok same, c)
    close_case (err e) q h = cc

    begin_case :
        (r : Result (Unit {0}))
        → (host.begin p.world).0 ≡ r
        → (transaction host body p).0 ≡ ok o
        → ((host.begin p.world).0 ≡ ok tt)
          × ((body begun).0 ≡ ok o)
          × ((host.commit (body begun).1.world).0 ≡ ok tt)
    unfolding transaction try ◌>>=◌ continue
    begin_case (err e) b h = absurd (ok≢err (sym (rw b at h)))
    begin_case (ok u) b h =
        let (ran, done) = close_case (body begun).0 (body begun).1 (rw b at h) in (b, ran, done)

    -- A transaction that succeeds has begun, run its body and committed what that did.
    pub transaction_ok :
        (transaction host body p).0 ≡ ok o
        → ((host.begin p.world).0 ≡ ok tt)
          × ((body begun).0 ≡ ok o)
          × ((host.commit (body begun).1.world).0 ≡ ok tt)
    transaction_ok h = begin_case _ refl h
