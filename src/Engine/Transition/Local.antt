-- ===== src/Engine/Transition/Local.antt =====
-- Transitions between substates of the composite in which the instance is.
use brokr.Common.{String, Bool, false, some, StrMap, ◌≡◌, refl}
use brokr.Model.Kinds.{is_internal}
use brokr.Model.Transition.{fields}
use brokr.Model.Workflow.{State, Transition}
use brokr.Engine.Instance.{WorkflowInstance}
use brokr.Engine.Effects.{Host, Process, ok}
use brokr.Engine.Effects.Returns.{Returns, Returns-pure, Returns-then, Returns-bind}
use brokr.Engine.Transition.{
  local_substate, leave, move, finish, external_rest, external_transition, apply_transition,
}

-- The row is at the substate, in the same state, with the same memory and the same pending fork.
pub record Shifted (a : WorkflowInstance) (sub : State) (b : WorkflowInstance) : Type 0 where
  pub state : b.current_state.state ≡ a.current_state.state
  pub substate : b.current_state.substate ≡ some sub
  pub composite_history : b.composite_history ≡ a.composite_history
  pub pending_fork_generation : b.pending_fork_generation ≡ a.pending_fork_generation

module _ {F X : Type 0} (host : Host F X) (id : String) (wf : WorkflowInstance) (t : Transition)
    (sub : State) where
  leave-Same : (context : StrMap) → Returns (λ r. r.0 ≡ wf) (leave host id wf (some sub) context)
  unfolding leave
  leave-Same context = Returns-pure _ refl

  move-Shifted :
      (left : WorkflowInstance)
      → left ≡ wf
      → Returns (Shifted wf sub) (move host id left t (some sub))
  unfolding move
  move-Shifted left e = Returns-pure _ (
      rw e (record {
        state = refl;
        substate = refl;
        composite_history = refl;
        pending_fork_generation = refl;
      }))

  finish-Shifted :
      (b : WorkflowInstance) (context : StrMap)
      → Shifted wf sub b
      → Returns (λ r. Shifted wf sub r.0) (finish host id wf.current_state b t context)
  unfolding finish
  finish-Shifted b context h = Returns-then _ _ λ context'. Returns-then _ _ λ time.
      Returns-pure _ (record {
        state = h.state;
        substate = h.substate;
        composite_history = h.composite_history;
        pending_fork_generation = h.pending_fork_generation;
      })

  rest-Shifted :
      (context : StrMap)
      → local_substate wf.current_state t ≡ some sub
      → Returns (λ r. Shifted wf sub r.0) (external_rest host id wf t context)
  unfolding external_rest
  rest-Shifted context local = rw local (
      Returns-then _ _ λ context₁.
        Returns-bind (λ r. r.0 ≡ wf) _ _ (leave-Same context₁)
          λ left e. Returns-bind (Shifted wf sub) _ _ (move-Shifted left.0 e) λ moved h.
            Returns-then _ _
              λ context₃. Returns-then _ _ λ context₄. finish-Shifted moved context₄ h)

  apply-Shifted :
      (context : StrMap)
      → is_internal (fields t).kind ≡ false
      → local_substate wf.current_state t ≡ some sub
      → Returns (λ r. Shifted wf sub r.0) (apply_transition host id wf t context)
  unfolding apply_transition external_transition
  apply-Shifted context external local =
      rw external
        (Returns-then _ _ λ stopped. Returns-then _ _ λ stopped'. rest-Shifted context local)

  -- A transition of a kind other than INTERNAL to a substate of the composite in which the instance is,
  -- when it succeeds, arrives at
  -- that substate and keeps the state, the remembered substates and the pending generation, also where
  -- it is a fork or a join.
  pub apply_transition-Shifted :
      (context : StrMap) (p : Process X) {r : WorkflowInstance × StrMap × Bool}
      → is_internal (fields t).kind ≡ false
      → local_substate wf.current_state t ≡ some sub
      → (apply_transition host id wf t context p).0 ≡ ok r
      → Shifted wf sub r.0
  apply_transition-Shifted context p {r} external local e =
      (apply-Shifted context external local).at p r e
