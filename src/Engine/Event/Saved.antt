-- ===== src/Engine/Event/Saved.antt =====
-- The row that processEvent saves.
use brokr.Common.{String, not, ◌&&◌, Option, none, some, ◌≡◌, refl, ◌∙◌, ap, sym}
use brokr.Model.Workflow.{Transition}
use brokr.Engine.Instance.{WorkflowInstance, is_end_state}
use brokr.Engine.Instance.WellFormed.{IsWellFormed}
use brokr.Engine.Match.{find_automatic_transition, find_candidate_transition, transition_scopes}
use brokr.Engine.Transition.Invariant.{Stepped, apply-Returns}
use brokr.Engine.Chain.{max_automatic_hops}
use brokr.Engine.Chain.Settled.{Settled, chain-Returns}
use brokr.Engine.Effects.{Host, ok, Process, try}
use brokr.Engine.Effects.Returns.{
  Returns, Returns-pure, Returns-raise, Returns-bind, Returns-then, bind_ok,
}
use brokr.Engine.Event.Recorded.{IsWritten, transact-Recorded}
use brokr.Engine.Event.{Outcome, bump, settle, fire, take_transition, transact}

module _ {F X : Type 0} (host : Host F X) where
  -- The row of an outcome against the row that was read.
  pub record Saved (wf : WorkflowInstance) (o : Outcome) : Type 0 where
    pub well_formed : IsWellFormed o.row
    pub definition : o.row.workflow_definition ≡ wf.workflow_definition
    pub id : o.row.id ≡ wf.id
    pub parent_id : o.row.parent_id ≡ wf.parent_id
    pub version : o.row.version ≡ bump wf.version
    pub complete :
        o.row.complete ≡ is_end_state o.row.workflow_definition (some o.row.current_state.state)
    pub just_completed : o.just_completed ≡ (not wf.complete && o.row.complete)
    pub at_rest : find_automatic_transition host.floats o.row o.row.context_map ≡ none

  fire-Saved :
      (id event : String) (wf : WorkflowInstance) (found : Option Transition)
      → IsWellFormed wf
      → Returns (Saved wf) (fire host id event wf found)
  unfolding fire take_transition settle find_automatic_transition transition_scopes
  fire-Saved id event wf none h = Returns-raise _
  fire-Saved id event wf (some t) h = Returns-then _ _ λ gate.
      Returns-bind (λ r. Stepped wf r.0) _ _ (apply-Returns host id wf t wf.context_map h)
        λ applied s.
          Returns-bind (Settled host max_automatic_hops applied.0) _ _
            (chain-Returns host id applied.0 applied.1 s.well_formed)
            λ chained c. Returns-then _ _ λ saved. Returns-pure _ (record {
              well_formed = record {
                positioned = c.well_formed.positioned;
                trailed = c.well_formed.trailed;
              };
              definition = c.same.workflow_definition ∙ s.same.workflow_definition;
              id = c.same.id ∙ s.same.id;
              parent_id = c.same.parent_id ∙ s.same.parent_id;
              version = ap bump (c.same.version ∙ s.same.version);
              complete = refl;
              just_completed = refl;
              at_rest = c.at_rest;
            })

  -- Where the row that is read is well formed and the event is processed, the transaction's function
  -- ends with a successful write of a row, after which it does nothing more to the database: that row is
  -- well formed and of the same instance, with the same definition and parent, one version later; its
  -- flag `complete` says whether its state is an end state, the instance has just completed if the flag
  -- was not set before, and no completion fires from it.
  pub transact-Saved :
      (id event : String) (p : Process X) {wf : WorkflowInstance} {o : Outcome}
      → (host.first_instance id p.world).0 ≡ ok wf
      → IsWellFormed wf
      → (transact host id event p).0 ≡ ok o
      → IsWritten host o.row (transact host id event p).1.world × Saved wf o
  unfolding transact try
  transact-Saved id event p {wf} {o} read h e =
      let candidate = find_candidate_transition host.floats wf event wf.context_map in
      let fired = bind_ok (try (host.first_instance id)) _ p read in
      (
        (transact-Recorded host id event p o e).2.written,
        (fire-Saved id event wf candidate h).at (try (host.first_instance id) p).1 o
            (sym (ap (λ r. r.0) fired) ∙ e),
      )
