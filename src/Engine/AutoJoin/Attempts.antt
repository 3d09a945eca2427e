-- ===== src/Engine/AutoJoin/Attempts.antt =====
-- What attemptAutoJoin dispatches, and that the parent answers to it.
use brokr.Common.{ℕ, String, Bool, true, false, some, ◌∷◌, ◌&&◌, if◌then◌else◌, ap, ◌≡◌, refl, ◌∙◌}
use brokr.Model.Guard.{evaluate}
use brokr.Model.Transition.{fields}
use brokr.Model.Workflow.{Transition}
use brokr.Engine.Instance.{WorkflowInstance}
use brokr.Engine.Match.{find_pending_join_transition}
use brokr.Engine.Children.{all_children_complete, is_zero}
use brokr.Engine.Effects.{Host, ok, Process, pure}
use brokr.Engine.Effects.Returns.{bind_done, try_lem}
use brokr.Engine.Event.Gate.{cohort}
use brokr.Engine.AutoJoin.{join_pending, attempt_auto_join, dispatch_async, absorb}

module _ {F X : Type 0} (host : Host F X) where
  dispatched_if :
      (id event : String) (p : Process X) (b : Bool)
      → (if b then dispatch_async id event else pure tt) p
        ≡ (ok tt, record p { dispatched = if b then (id, event) ∷ p.dispatched else p.dispatched })
  unfolding dispatch_async pure
  dispatched_if id event p true = refl
  dispatched_if id event p false = refl

  counted :
      (id : String) (wf : WorkflowInstance) (p : Process X) {n : ℕ} {x' : X}
      → host.count_incomplete id (cohort wf) p.world ≡ (ok n, x')
      → all_children_complete host id wf.pending_fork_generation p
        ≡ (ok (is_zero n), record p { world = x' })
  unfolding all_children_complete pure
  counted id wf p count = bind_done _ _ (try_lem (host.count_incomplete id (cohort wf)) p count)

  joined :
      (id : String) (wf : WorkflowInstance) (t : Transition) (p : Process X) {n : ℕ} {x' : X}
      → host.count_incomplete id (cohort wf) p.world ≡ (ok n, x')
      → (b : Bool) → evaluate host.floats (fields t).guard wf.context_map ≡ b
      → join_pending host id wf (some t) p ≡ (
        ok tt,
        record p {
          world = if b then x' else p.world;
          dispatched =
              if b && is_zero n then (id, (fields t).event) ∷ p.dispatched else p.dispatched;
        },
      )
  unfolding join_pending pure
  joined id wf t p {n} {x'} count true passes = rw passes (
      bind_done _ _ (counted id wf p count)
      ∙ dispatched_if id (fields t).event (record p { world = x' }) (is_zero n))
  joined id wf t p count false fails = rw fails refl

  -- An auto-join dispatches the event of the pending join exactly where the guard of that join passes
  -- and every child that counts has completed: it counts the children only where the guard passes, and
  -- nothing else of the process changes.
  pub attempt_auto_join_dispatches :
      (id : String) (p : Process X) {wf : WorkflowInstance} (t : Transition) {n : ℕ} {x x' : X}
      → host.first_instance id p.world ≡ (ok wf, x)
      → find_pending_join_transition wf ≡ some t
      → host.count_incomplete id (cohort wf) x ≡ (ok n, x')
      → attempt_auto_join host id p ≡ (
          let passes = evaluate host.floats (fields t).guard wf.context_map in
          (
            ok tt,
            record p {
              world = if passes then x' else x;
              dispatched =
                  if passes && is_zero n
                  then (id, (fields t).event) ∷ p.dispatched
                  else p.dispatched;
            },
          ))
  unfolding attempt_auto_join absorb
  attempt_auto_join_dispatches id p {wf} t {x = x} read found count =
      ap (λ r. (ok tt, r.1))
        (bind_done _ _ (try_lem (host.first_instance id) p read)
          ∙ ap (λ pending. join_pending host id wf pending (record p { world = x })) found
          ∙ joined id wf t (record p { world = x }) count _ refl)
