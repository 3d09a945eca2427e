-- ===== src/Engine/Event/Gate.antt =====
-- The two ways in which processEvent refuses an event before any transition is applied.
use brokr.Common.{
  ℕ, zero, suc, sym, String, true, Option, none, some, ◌≡◌, refl, ◌∙◌, ap, if◌then◌else◌, ◌==◌,
}
use brokr.Model.State.{get_id}
use brokr.Model.Transition.{is_join}
use brokr.Model.Workflow.{Transition}
use brokr.Engine.Instance.{WorkflowInstance}
use brokr.Engine.Match.{find_candidate_transition}
use brokr.Engine.Children.{all_children_complete, is_zero}
use brokr.Engine.Effects.{
  Host, Error, Result, no_transition, children_not_complete, ok, err, Process, pure, raise,
}
use brokr.Engine.Effects.Returns.{ok≢err, bind_done, bind_failed, try_lem}
use brokr.Engine.Event.{Outcome, transact, fire, check_children}

-- The generation by which the children are counted.
abbrev pub cohort : WorkflowInstance → Option String
cohort wf = if wf.pending_fork_generation == "" then none else some wf.pending_fork_generation

module _ {F X : Type 0} (host : Host F X) (id event : String) (p : Process X)
    {wf : WorkflowInstance} {x : X} (read : host.first_instance id p.world ≡ (ok wf, x)) where
  pub read_then :
      transact host id event p
      ≡ fire host id event wf
          (find_candidate_transition host.floats wf event wf.context_map)
          (record p { world = x })
  unfolding transact
  read_then = bind_done _ _ (try_lem (host.first_instance id) p read)

  -- An event that no candidate answers to is refused, and nothing but the read has happened.
  pub transact_no_candidate :
      find_candidate_transition host.floats wf event wf.context_map ≡ none
      → transact host id event p
        ≡ (err (no_transition (get_id wf.current_state.state) event), record p { world = x })
  unfolding fire raise
  transact_no_candidate e = read_then ∙ rw e

  gate_shut :
      (t : Transition) {n : ℕ} {x' : X}
      → is_join t ≡ true
      → host.count_incomplete id (cohort wf) x ≡ (ok (suc n), x')
      → (if is_join t then check_children host id event wf else pure tt) (record p { world = x })
        ≡ (
          err (children_not_complete (get_id wf.current_state.state) event),
          record p { world = x' },
        )
  unfolding check_children all_children_complete pure raise is_zero
  gate_shut t join count = rw join (
      bind_done _ _ (
        bind_done _ _
          (try_lem (host.count_incomplete id (cohort wf)) (record p { world = x }) count)))

  gate_failed :
      (t : Transition) {e : Error} {x' : X}
      → is_join t ≡ true
      → host.count_incomplete id (cohort wf) x ≡ (err e, x')
      → (if is_join t then check_children host id event wf else pure tt) (record p { world = x })
        ≡ (err e, record p { world = x' })
  unfolding check_children all_children_complete
  gate_failed t join count = rw join (
      bind_failed _ _ (
        bind_failed _ _
          (try_lem (host.count_incomplete id (cohort wf)) (record p { world = x }) count)))

  module _ (t : Transition)
      (found : find_candidate_transition host.floats wf event wf.context_map ≡ some t) where
    -- What the gate raises is what the function of the transaction returns.
    fails_at_gate :
        {e : Error} {q : Process X}
        → (if is_join t then check_children host id event wf else pure tt) (record p { world = x })
          ≡ (err e, q)
        → transact host id event p ≡ (err e, q)
    unfolding fire
    fails_at_gate shut =
        read_then
        ∙ ap (λ c. fire host id event wf c (record p { world = x })) found
        ∙ bind_failed _ _ shut

    counted_none :
        (join : is_join t ≡ true) {o : Outcome} {x' : X} (r : Result ℕ)
        → host.count_incomplete id (cohort wf) x ≡ (r, x')
        → (transact host id event p).0 ≡ ok o
        → r ≡ ok 0
    counted_none join (err e) count done =
        absurd (ok≢err (sym done ∙ ap (λ q. q.0) (fails_at_gate (gate_failed t join count))))
    counted_none join (ok zero) count done = refl
    counted_none join (ok (suc n)) count done =
        absurd (ok≢err (sym done ∙ ap (λ q. q.0) (fails_at_gate (gate_shut t join count))))

    -- A join is taken only where the count of the children that it waits for has come to none.
    pub transact_joined :
        {o : Outcome}
        → is_join t ≡ true
        → (transact host id event p).0 ≡ ok o
        → (host.count_incomplete id (cohort wf) x).0 ≡ ok 0
    transact_joined join done = counted_none join _ refl done
