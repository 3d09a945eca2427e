-- ===== src/Engine/Transition/Invariant.antt =====
-- What applyTransition keeps: the identity of the row, a well-formed position, and a journey that
-- leads to it.
use brokr.Common.{
  String, Bool, Option, none, some, List, [], ◌∷◌, ◌++◌, StrMap, ◌≡◌, refl, ◌∙◌, ap, arith,
}
use brokr.Model.Kinds.{is_internal, is_fork}
use brokr.Model.Transition.{fields, targets, is_join}
use brokr.Model.Workflow.{State, CompositeState, Transition, ForkTarget}
use brokr.Engine.Instance.{WorkflowInstance, JourneyEntry}
use brokr.Engine.Instance.WellFormed.{
  IsPosition, IsWellFormed, Inhabits, Leads-append, SameInstance, SameInstance-refl,
  SameInstance-trans,
}
use brokr.Engine.Position.Known.{find_substate-Memᴰ, resolve_target-IsPosition}
use brokr.Engine.Effects.{Host, Process, ok}
use brokr.Engine.Effects.Returns.{
  Returns, Returns-pure, Returns-raise, Returns-if, Returns-bind, Returns-then, Returns-lift,
  Returns-weaken,
}
use brokr.Engine.Transition.{
  find_local, local_substate, journey_entry, remember, remember_in, leave, spawn_regions,
  fork_or_join, move, finish, internal_transition, external_rest, external_transition,
  apply_transition,
}

-- The row may differ in its history and its pending fork only.
pub record Unmoved (a b : WorkflowInstance) : Type 0 where
  pub same : SameInstance a b
  pub journey : b.journey ≡ a.journey
  pub current_state : b.current_state ≡ a.current_state

-- The row is at a position of its definition, and its journey has yet to say so.
pub record Arrived (a b : WorkflowInstance) : Type 0 where
  pub same : SameInstance a b
  pub journey : b.journey ≡ a.journey
  pub positioned : IsPosition b.workflow_definition b.current_state

-- The row has made a step and is well formed.
pub record Stepped (a b : WorkflowInstance) : Type 0 where
  pub same : SameInstance a b
  pub well_formed : IsWellFormed b
  pub entry : JourneyEntry
  pub journey : b.journey ≡ a.journey ++ entry ∷ []

remember-Unmoved : (wf : WorkflowInstance) (sub : Option State) → Unmoved wf (remember_in sub wf)
unfolding remember_in
remember-Unmoved wf none = record {
  same = SameInstance-refl wf;
  journey = refl;
  current_state = refl;
}
remember-Unmoved wf (some sub) = record {
  same = ground arith;
  journey = refl;
  current_state = refl;
}

local-Inhabits :
    (comp : Option CompositeState) (from : Option State) (target : String) {sub : State}
    → find_local comp from target ≡ some sub
    → Inhabits comp (some sub)
unfolding find_local
local-Inhabits (some comp) (some from) target found = find_substate-Memᴰ comp target found
local-Inhabits (some comp) none target found = cc
local-Inhabits none from target found = cc

module _ {F X : Type 0} (host : Host F X) where
  leave-Unmoved :
      (id : String) (wf : WorkflowInstance) (local : Option State) (context : StrMap)
      → Returns (λ r. Unmoved wf r.0) (leave host id wf local context)
  unfolding leave remember
  leave-Unmoved id wf (some sub) context =
      Returns-pure _ (record { same = SameInstance-refl wf; journey = refl; current_state = refl })
  leave-Unmoved id wf none context =
      Returns-then _ _ λ context'. Returns-pure _ (remember-Unmoved wf wf.current_state.substate)

  spawn_regions-Unmoved :
      (id : String) (wf : WorkflowInstance) (t : Transition) (forks : List ForkTarget)
      → Returns (Unmoved wf) (spawn_regions host id wf t forks)
  unfolding spawn_regions
  spawn_regions-Unmoved id wf t [] = Returns-raise _
  spawn_regions-Unmoved id wf t (fork ∷ forks) =
      Returns-then _ _
        λ generation. Returns-then _ _ λ defs. Returns-then _ _ λ ids. Returns-pure _ (ground arith)

  fork_or_join-Unmoved :
      (id : String) (wf : WorkflowInstance) (t : Transition)
      → Returns (Unmoved wf) (fork_or_join host id wf t)
  unfolding fork_or_join
  fork_or_join-Unmoved id wf t =
      Returns-if (is_fork (fields t).kind) _ _ (λ _. spawn_regions-Unmoved id wf t (targets t))
        λ _.
          Returns-if (is_join t) _ _ (λ _. Returns-pure _ (ground arith))
            λ _. Returns-pure _ (ground arith)

  move-Arrived :
      (id : String) (wf : WorkflowInstance) (t : Transition) (local : Option State)
      → IsPosition wf.workflow_definition wf.current_state
      → local_substate wf.current_state t ≡ local
      → Returns (Arrived wf) (move host id wf t local)
  unfolding move local_substate
  move-Arrived id wf t (some sub) h found = Returns-pure _ (record {
    same = ground arith;
    journey = refl;
    positioned = record {
      state_known = h.state_known;
      substate_known = local-Inhabits _ _ (fields t).target found;
    };
  })
  move-Arrived id wf t none h found =
      Returns-bind (λ r. IsPosition wf.workflow_definition (record { state = r.0; substate = r.1 }))
        _ _
        (Returns-lift _ (resolve_target-IsPosition wf.workflow_definition t wf.composite_history))
        λ r known.
          let wf' : WorkflowInstance = record wf {
            current_state = record { state = r.0; substate = r.1 };
          } in
          Returns-weaken (fork_or_join-Unmoved id wf' t) λ b u. record {
            same = SameInstance-trans (let s : SameInstance wf wf' = ground arith in s) u.same;
            journey = u.journey;
            positioned = rw (u.same.workflow_definition, u.current_state) known;
          }

  finish-Stepped :
      (id : String) (a b : WorkflowInstance) (t : Transition) (context : StrMap)
      → IsWellFormed a
      → Arrived a b
      → Returns (λ r. Stepped a r.0) (finish host id a.current_state b t context)
  unfolding finish
  finish-Stepped id a b t context h g = Returns-then _ _ λ context'. Returns-then _ _ λ time.
      Returns-pure _ (record {
        same = SameInstance-trans g.same (ground arith);
        entry = journey_entry t a.current_state b.current_state time;
        journey = rw g.journey;
        well_formed = record {
          positioned = g.positioned;
          trailed =
              Leads-append "" "" b.journey (journey_entry t a.current_state b.current_state time)
                (rw g.journey h.trailed);
        };
      })

  internal-Stepped :
      (id : String) (wf : WorkflowInstance) (t : Transition) (context : StrMap)
      → IsWellFormed wf
      → Returns (λ r. Stepped wf r.0) (internal_transition host id wf t context)
  unfolding internal_transition
  internal-Stepped id wf t context h = Returns-then _ _ λ context'. Returns-then _ _ λ time.
      Returns-pure _ (record {
        same = ground arith;
        entry = journey_entry t wf.current_state wf.current_state time;
        journey = refl;
        well_formed = record {
          positioned = h.positioned;
          trailed =
              Leads-append "" "" wf.journey (journey_entry t wf.current_state wf.current_state time)
                h.trailed;
        };
      })

  external-Stepped :
      (id : String) (wf : WorkflowInstance) (t : Transition) (context : StrMap)
      → IsWellFormed wf
      → Returns (λ r. Stepped wf r.0) (external_transition host id wf t context)
  unfolding external_transition external_rest
  external-Stepped id wf t context h =
      let local = local_substate wf.current_state t in
      Returns-then _ _ λ stopped. Returns-then _ _ λ stopped'. Returns-then _ _ λ context₁.
        Returns-bind (λ r. Unmoved wf r.0) _ _ (leave-Unmoved id wf local context₁)
          λ left u.
            Returns-bind (Arrived left.0) _ _
              (move-Arrived id left.0 t local
                (rw (u.same.workflow_definition, u.current_state) h.positioned)
                (ap (λ c. local_substate c t) u.current_state))
              λ moved g. Returns-then _ _ λ context₃. Returns-then _ _ λ context₄.
                finish-Stepped id wf moved t context₄ h (record {
                  same = SameInstance-trans u.same g.same;
                  journey = g.journey ∙ u.journey;
                  positioned = g.positioned;
                })

  pub apply-Returns :
      (id : String) (wf : WorkflowInstance) (t : Transition) (context : StrMap)
      → IsWellFormed wf
      → Returns (λ r. Stepped wf r.0) (apply_transition host id wf t context)
  unfolding apply_transition
  apply-Returns id wf t context h =
      Returns-if (is_internal (fields t).kind) _ _ (λ _. internal-Stepped id wf t context h)
        λ _. external-Stepped id wf t context h

  -- A transition that is applied to a well-formed row and succeeds leaves a row of the same instance
  -- whose position belongs to the definition, and whose journey is one entry longer and leads to it.
  pub apply_transition-Stepped :
      (id : String) (wf : WorkflowInstance) (t : Transition) (context : StrMap) (p : Process X)
      {r : WorkflowInstance × StrMap × Bool}
      → IsWellFormed wf
      → (apply_transition host id wf t context p).0 ≡ ok r
      → Stepped wf r.0
  apply_transition-Stepped id wf t context p {r} h e = (apply-Returns id wf t context h).at p r e
